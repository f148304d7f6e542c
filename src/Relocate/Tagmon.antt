-- ===== src/Relocate/Tagmon.antt =====
-- relocate.py: the reads of the crash guard, and the bounded walk of one window to its monitor.
pub mod Arrival
use xrandrw.Prelude.{
  ℕ, zero, suc, ◌+◌, String, Bool, true, Option, none, some, List, [], ◌∷◌, ◌==◌, ltb, length,
  if◌then◌else◌,
}
use xrandrw.Prelude.Int.{ℤ}
use xrandrw.Json.{Json, arr, null, Key, key, key_eq, Result, ok, as_int, truthy, items, get, index}
use xrandrw.Relocate.Guard.{ClientState, MonitorState, tagmon_crash_risk}
use xrandrw.Relocate.Seam.{
  Seams, M, pure, lift, or_unavailable, ◌>>=◌, monitors, dwm_client, run_verb,
}
use xrandrw.Relocate.Focus.{get_field, clients_field, focus_and_confirm}

abbrev pub guard_client_budget : ℕ
guard_client_budget = 64

-- `(v or {}).get(k)`
abbrev get_or_empty : String → Json → Result Json
get_or_empty k v = if truthy v then get k v else ok null

-- The first pass: the shapes, and how many clients there are in all.
abbrev pub count_clients : List Json → Option ℕ
count_clients [] = some 0
count_clients (m ∷ ms) = elim (as_int (get_field "num" m)) [
  | none ↦ none
  | some _ ↦ elim (clients_field "all" m) [
    | arr js ↦ elim (count_clients ms) [ none ↦ none | some n ↦ some (length (items js) + n) ]
    | _ ↦ none
  ]
]

-- The outcome of a step: it took effect, it did not, or dwm never confirmed the focus.
pub data Status : Type 0 where
  step_ok step_failed step_focus_lost : Status

module _ (S : Seams) where
  unfoldable pub client_states : List Json → M S.World (Option (List ClientState))
  client_states [] = pure (some [])
  client_states (cx ∷ rest) = elim (as_int cx) [
    | none ↦ pure none
    | some x ↦ do
      c ← dwm_client S x
      floating ← lift (get_or_empty "is_floating" (get_field "states" c))
      elim (as_int (get_field "tags" c)) [
        | none ↦ pure none
        | some tags ↦ do
          more ← client_states rest
          elim more [
            | none ↦ pure none
            | some cs ↦
                pure (some (record { xid = x; tags = tags; floating = truthy floating } ∷ cs))
          ]
      ]
  ]

  unfoldable pub monitor_states : List Json → M S.World (Option (List MonitorState))
  unfolding client_states
  monitor_states [] = pure (some [])
  monitor_states (m ∷ rest) = do
    current ← lift (get_or_empty "current" (get_field "tagset" m))
    elim (as_int current) [
      | none ↦ pure none
      | some tagset ↦ do
        found ← client_states (elim (clients_field "all" m) [ arr js ↦ items js | _ ↦ [] ])
        elim found [
          | none ↦ pure none
          | some cs ↦ do
            more ← monitor_states rest
            elim more [
              | none ↦ pure none
              | some ms ↦ elim (as_int (get_field "num" m)) [
                | none ↦ pure none
                | some n ↦ pure (some (record { num = n; tagset = tagset; clients = cs } ∷ ms))
              ]
            ]
        ]
    ]

  unfoldable pub read_monitor_states : List Json → M S.World (Option (List MonitorState))
  unfolding monitor_states
  read_monitor_states ms = elim (count_clients ms) [
    | none ↦ pure none
    | some total ↦ if ltb guard_client_budget total then pure none else monitor_states ms
  ]

  unfoldable pub tagmon_would_crash_dwm : ℤ → ℤ → M S.World Bool
  tagmon_would_crash_dwm x direction =
      or_unavailable
        (do
          ms ← monitors S
          mons ← read_monitor_states ms
          elim mons [
            | none ↦ pure true
            | some states ↦ pure (tagmon_crash_risk states x direction)
          ])
        (pure true)

  -- `dwm` has taken the command: read where the window is now.
  unfoldable pub arrived : ℤ → Key → M S.World Status → M S.World Status
  arrived x target again = do
    client ← dwm_client S x
    cur ← lift (index "monitor_number" client)
    if key cur == target then pure step_ok else again

  -- The part of a hop behind the confirmed focus and the guard.
  unfoldable pub hop : ℤ → ℤ → Key → M S.World Status → M S.World Status
  unfolding arrived
  hop x direction target again = do
    moved ← run_verb S "tagmon" (direction ∷ [])
    if moved then arrived x target again else pure step_failed

  unfoldable pub guarded_hop : ℤ → ℤ → Key → M S.World Status → M S.World Status
  unfolding hop
  guarded_hop x direction target again = do
    unsafe ← tagmon_would_crash_dwm x direction
    if unsafe then pure step_failed else hop x direction target again

  -- `hops` rounds at most, each with a confirmed focus and a passed guard before its `tagmon`.
  unfoldable pub tagmon_to_target : ℕ → ℤ → ℤ → Key → M S.World Status
  unfolding guarded_hop
  tagmon_to_target zero x direction target = pure step_failed
  tagmon_to_target (suc hops) x direction target = do
    landed ← focus_and_confirm S x
    if landed
        then guarded_hop x direction target (tagmon_to_target hops x direction target)
        else pure step_focus_lost
