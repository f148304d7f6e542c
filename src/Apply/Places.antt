-- ===== src/Apply/Places.antt =====
-- The external heads that apply.py places.
use xrandrw.Prelude.{
  ℕ, String, ◌≡◌, ◌∙◌, sym, ap, some, List, [], ◌∷◌, ◌++◌, arith, ◌==◌, contains, filter, string_eq,
  Bool-cases, Option-cases, inl, inr, All, All-append,
}
use mathlib.Core.Path.{subst}
use xrandrw.Prelude.Dict.{Dict, keys, lookup, insert}
use xrandrw.Prelude.Partial.{>>=-some}
use xrandrw.Prelude.Sort.{sort_by, All-sort_by}
use xrandrw.Outputs.{Output, Outputs}
use xrandrw.Policy.{Place, assign_placements}
use xrandrw.Policy.Placement.{items_of, named, assign_placements-total}
use xrandrw.Store.{Store, ensure_profile}
use xrandrw.Apply.Externals.{
  Command, conns_of, group_by_pid, with_sides, pids_of, resolve_all, place_stack, place_externals,
  or_nil, get_profile, place_all, reversed,
}

module _ (P : String → Type 0) where
  -- All texts of all entries.
  abbrev AllGroups : Dict String (List String) → Type 0
  AllGroups = All (λ (e : String × List String). All P e.1)

  AllGroups-lookup :
      (groups : Dict String (List String)) (pid : String) (names : List String)
      → AllGroups groups
      → lookup pid groups ≡ some names
      → All P names
  unfolding lookup
  AllGroups-lookup [] pid names g h = ground arith
  AllGroups-lookup ((q, ns) ∷ groups) pid names (a, g) h = elim (Bool-cases (q == pid)) [
    | inl e ↦ subst (All P) (ground arith) a
    | inr e ↦ AllGroups-lookup groups pid names g (ground arith)
  ]

  AllGroups-or_nil :
      (groups : Dict String (List String)) (pid : String)
      → AllGroups groups
      → All P (or_nil (lookup pid groups))
  AllGroups-or_nil groups pid g = elim (Option-cases (lookup pid groups)) [
    | inl e ↦ subst (λ o. All P (or_nil o)) (sym e) tt
    | inr (ns, e) ↦ subst (λ o. All P (or_nil o)) (sym e) (AllGroups-lookup groups pid ns g e)
  ]

  AllGroups-insert :
      (groups : Dict String (List String)) (pid : String) (names : List String)
      → All P names
      → AllGroups groups
      → AllGroups (insert pid names groups)
  unfolding insert
  AllGroups-insert [] pid names n g = (n, tt)
  AllGroups-insert ((q, ns) ∷ groups) pid names n (a, g) = elim (Bool-cases (q == pid)) [
    | inl e ↦ rw e (n, g)
    | inr e ↦ rw e (a, AllGroups-insert groups pid names n g)
  ]

  AllGroups-group_by_pid :
      (pids : Dict String String) (groups : Dict String (List String))
      → All P (keys pids)
      → AllGroups groups
      → AllGroups (group_by_pid pids groups)
  AllGroups-group_by_pid [] groups k g = g
  AllGroups-group_by_pid ((name, pid) ∷ pids) groups (p, k) g =
      AllGroups-group_by_pid pids (insert pid (or_nil (lookup pid groups) ++ name ∷ []) groups) k (
        AllGroups-insert groups pid (or_nil (lookup pid groups) ++ name ∷ [])
          (All-append P (or_nil (lookup pid groups)) (name ∷ []) (AllGroups-or_nil groups pid g)
            (p, tt))
          g)

  conns_of-All :
      (pids : List String) (groups : Dict String (List String)) (conns : List String)
      → AllGroups groups
      → conns_of pids groups ≡ some conns
      → All P conns
  conns_of-All [] groups conns g h = let e : [] ≡ conns = ground arith in subst (All P) e tt
  conns_of-All (pid ∷ pids) groups conns g h =
      let (names, e, h') = >>=-some (lookup pid groups) _ conns h in
      let (more, e', h'') = >>=-some (conns_of pids groups) _ conns h' in
      let k : sort_by (λ (n : String). n) names ++ more ≡ conns = ground arith in
      subst (All P) k (
        All-append P (sort_by (λ (n : String). n) names) more
          (All-sort_by (λ (n : String). n) P names (AllGroups-lookup groups pid names g e))
          (conns_of-All pids groups more g e'))

  keys-insert-All :
      (n pid : String) (d : Dict String String)
      → P n
      → All P (keys d)
      → All P (keys (insert n pid d))
  unfolding insert
  keys-insert-All n pid [] p k = (p, tt)
  keys-insert-All n pid ((m, q) ∷ d) p (a, k) = elim (Bool-cases (m == n)) [
    | inl e ↦ rw e (a, k)
    | inr e ↦ rw e (a, keys-insert-All n pid d p k)
  ]

named-with_sides :
    (conns : List String) (pids : Dict String String) (side : String) (st : Store)
    → (ordered : List (String × String)) (st' : Store)
    → with_sides conns pids side st ≡ some (ordered, st')
    → named ordered ≡ conns
named-with_sides [] pids side st ordered st' h = ground arith
named-with_sides (x ∷ conns) pids side st ordered st' h =
    let (pid, _, h') = >>=-some (lookup x pids) _ (ordered, st') h in
    let ((more, st''), e, h'') =
      >>=-some (with_sides conns pids side (get_profile pid st).1) _ (ordered, st') h' in
    let k : named ordered ≡ x ∷ named more = ground arith in
    k ∙ ap (λ ns. x ∷ ns) (named-with_sides conns pids side _ more st'' e)

module _ (new_profile_id : String → String) (P : String → Type 0) where
  resolve_all-All :
      (exts : List Output) (side : String) (now : ℕ) (pids : Dict String String) (st : Store)
      → (pids' : Dict String String) (st' : Store) → All (λ (o : Output). P o.name) exts
      → All P (keys pids)
      → resolve_all new_profile_id exts side now pids st ≡ some (pids', st')
      → All P (keys pids')
  unfolding resolve_all
  resolve_all-All [] side now pids st pids' st' n k h =
      let e : pids ≡ pids' = ground arith in subst (λ d. All P (keys d)) e k
  resolve_all-All (o ∷ exts) side now pids st pids' st' (p, n) k h =
      let ((pid, st''), _, h') =
        >>=-some (ensure_profile new_profile_id o st side now) _ (pids', st') h in
      resolve_all-All exts side now (insert o.name pid pids) st'' pids' st' n
        (keys-insert-All P o.name pid pids p k) h'

  abbrev stack_order : List String → Store → List String
  stack_order current st = reversed (filter (λ pid. contains pid current) st.attach_stack)

  place_stack-All :
      (pids : Dict String String) (current : List String) (primary side : String) (outs : Outputs)
      → (st st' : Store) (commands : List Command) → All P (keys pids)
      → place_stack new_profile_id pids current primary side outs st ≡ some (st', commands)
      → (places : List Place) × (place_all places outs ≡ some commands) × All P (items_of places)
  unfolding place_stack
  place_stack-All pids current primary side outs st st' commands k h =
      let groups = group_by_pid pids [] in
      let (conns, e3, h3) =
        >>=-some (conns_of (stack_order current st) groups) _ (st', commands) h in
      let ((ordered, st2), e4, h4) =
        >>=-some (with_sides conns pids side st) _ (st', commands) h3 in
      let (places, e5, h5) =
        >>=-some (assign_placements ordered primary "right-of") _ (st', commands) h4 in
      let (cs, e6, h6) = >>=-some (place_all places outs) _ (st', commands) h5 in
      let ends : cs ≡ commands = ground arith in
      let (ps, e7, is_items) = assign_placements-total ordered primary "right-of" in
      let same : places ≡ ps = ground arith in
      let items : items_of places ≡ conns =
        ap items_of same ∙ is_items ∙ named-with_sides conns pids side st ordered st2 e4 in
      (
        places,
        e6 ∙ ap some ends,
        subst (All P) (sym items) (
            conns_of-All P (stack_order current st) groups conns
              (AllGroups-group_by_pid P pids [] k tt) e3),
      )

  -- The items of every placement are external heads.
  pub place_externals-All :
      (st : Store) (exts : List Output) (primary side : String) (outs : Outputs) (now : ℕ)
      → (st' : Store) (commands : List Command) → All (λ (o : Output). P o.name) exts
      → place_externals new_profile_id st exts primary side outs now ≡ some (st', commands)
      → (places : List Place) × (place_all places outs ≡ some commands) × All P (items_of places)
  unfolding place_externals
  place_externals-All st exts primary side outs now st' commands n h =
      let ((pids, st1), e1, h1) =
        >>=-some (resolve_all new_profile_id exts side now [] st) _ (st', commands) h in
      let (current, _, h2) = >>=-some (pids_of new_profile_id exts pids) _ (st', commands) h1 in
      place_stack-All pids current primary side outs _ st' commands
        (resolve_all-All exts side now [] st pids st1 n tt e1) h2
