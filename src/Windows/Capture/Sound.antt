-- ===== src/Windows/Capture/Sound.antt =====
-- What the records of a capture of windows.py say.
use mathlib.Core.Path.{subst}
use xrandrw.Prelude.{
  String, ◌≡◌, refl, ◌∙◌, sym, ap, Option, none, some, List, [], ◌∷◌, ◌⊎◌, arith, All, All-append,
  inl, inr, Option-cases, string_eq,
}
use xrandrw.Prelude.Dict.{Dict}
use xrandrw.Prelude.Int.{ℤ}
use xrandrw.Json.{Json, Key, key_eq, Result, ok, unavailable, raised, index, ◌>>=◌, >>=-ok, ok_inj}
use xrandrw.Ipc.{validate_monitors, validate_client}
use xrandrw.Outputs.{Outputs}
use xrandrw.Windows.{match_dwm_monitor_to_output}
use xrandrw.Windows.Process.{ProcIdentity, resolve_pid}
use xrandrw.Windows.Capture.{
  Captured, to_int, connector_for, edid_for, Sources, record_of, request_client, capture_resolved,
  capture_matched, capture_listed, capture_window, kept, add, capture_clients, capture_monitors,
  capture_read, capture_windows, clients_of,
}
use xrandrw.Windows.Capture.Built.{IsBuilt, build_record-IsBuilt}
use xrandrw.Windows.Capture.Connectors.{
  IsConnector, IsEdid, connector_for-IsConnector, edid_for-IsEdid,
}

All-kept :
    (P : Captured → Type 0) (found : Result Captured)
    → ((r : Captured) → found ≡ ok r → P r)
    → All P (add (kept found) [])
All-kept P (ok r) h = (h r refl, tt)
All-kept P unavailable h = tt
All-kept P raised h = tt

All-add :
    (P : Captured → Type 0) (found : Option Captured) (records : List Captured)
    → All P (add found [])
    → All P records
    → All P (add found records)
All-add P none records f h = h
All-add P (some r) records (p, _) h = (p, h)

module _ (S : Sources) where
  -- A state that is reached by the calls of the loop over the windows.
  pub data Reaches (start : S.World) : S.World → Type 0 where
    here : Reaches start start
    looked : (xid : Json) (w : S.World) → Reaches start w → Reaches start (S.window_reads xid w).1
    asked : (x : ℤ) (w : S.World) → Reaches start w → Reaches start (S.get_dwm_client x w).1

  -- Where the record comes from: a window whose process is resolved in the course of the loop, dwm's
  -- reply on it then, and the association of dwm's monitors with outputs.
  pub record Seen (start : S.World) (mapping : Dict Key (Option String)) (outs : Outputs)
      (r : Captured) : Type 0 where
    pub xid : Json
    pub before : S.World
    pub reached : Reaches start before
    pub identity : ProcIdentity
    pub resolved : resolve_pid S.hostname (S.window_reads xid before).0 ≡ some identity
    pub client : Json
    pub replied :
        ((request_client S xid (S.window_reads xid before).1).0 >>= validate_client) ≡ ok client
    pub built : IsBuilt xid identity client r
    pub output_is : IsConnector mapping r.monitor_number r.output
    pub edid_is : IsEdid outs r.output r.edid

  request_client-Reaches :
      (start : S.World) (xid : Json) (w : S.World)
      → Reaches start w
      → Reaches start (request_client S xid w).1
  request_client-Reaches start xid w r = elim (Option-cases (to_int xid)) [
    | inl e ↦ rw (e, request_client) r
    | inr (x, e) ↦ rw (e, request_client) (asked x w r)
  ]

  module _ (start : S.World) (mapping : Dict Key (Option String)) (outs : Outputs) where
    record_of-Seen :
        (xid : Json) (w : S.World) (identity : ProcIdentity) (r : Captured)
        → Reaches start w
        → resolve_pid S.hostname (S.window_reads xid w).0 ≡ some identity
        → record_of S mapping outs xid identity (request_client S xid (S.window_reads xid w).1).0
          ≡ ok r
        → Seen start mapping outs r
    unfolding record_of
    record_of-Seen xid w identity r reached resolved h =
        let reply = (request_client S xid (S.window_reads xid w).1).0 in
        let (body, eb, h1) = >>=-ok reply _ r h in
        let (client, ec, h2) = >>=-ok (validate_client body) _ r h1 in
        let (m, em, h3) = >>=-ok (index "monitor_number" client) _ r h2 in
        let (c, ecn, h4) = >>=-ok (connector_for m mapping) _ r h3 in
        let (built, out, ed) = build_record-IsBuilt xid identity client c (edid_for c outs) r h4 in
        let same : m ≡ r.monitor_number = ok_inj (sym em ∙ built.monitor_is) in
        record {
          xid = xid;
          before = w;
          reached = reached;
          identity = identity;
          resolved = resolved;
          client = client;
          replied = ap (λ o. o >>= validate_client) eb ∙ ec;
          built = built;
          output_is =
              connector_for-IsConnector mapping r.monitor_number r.output
                (ap (λ j. connector_for j mapping) (sym same) ∙ ecn ∙ ap ok (sym out));
          edid_is =
              subst (λ e. IsEdid outs r.output e) (sym (ed ∙ ap (λ o. edid_for o outs) (sym out)))
                (edid_for-IsEdid outs r.output);
        }

    capture_resolved-Seen :
        (xid : Json) (w : S.World) (found : Option ProcIdentity)
        → Reaches start w
        → resolve_pid S.hostname (S.window_reads xid w).0 ≡ found
        → All
            (Seen start mapping outs)
            (add (capture_resolved S mapping outs xid found (S.window_reads xid w).1).0 [])
    unfolding capture_resolved
    capture_resolved-Seen xid w none reached e = tt
    capture_resolved-Seen xid w (some identity) reached e =
        All-kept (Seen start mapping outs)
          (record_of S mapping outs xid identity (request_client S xid (S.window_reads xid w).1).0)
          (λ r. record_of-Seen xid w identity r reached e)

    capture_resolved-Reaches :
        (xid : Json) (w : S.World) (found : Option ProcIdentity)
        → Reaches start w
        → Reaches start (capture_resolved S mapping outs xid found w).1
    unfolding capture_resolved
    capture_resolved-Reaches xid w none r = r
    capture_resolved-Reaches xid w (some identity) r = request_client-Reaches start xid w r

    capture_window-Reaches :
        (xid : Json) (w : S.World)
        → Reaches start w
        → Reaches start (capture_window S mapping outs xid w).1
    unfolding capture_window
    capture_window-Reaches xid w r =
        capture_resolved-Reaches xid (S.window_reads xid w).1 _ (looked xid w r)

    capture_clients-Reaches :
        (xids : List Json) (w : S.World)
        → Reaches start w
        → Reaches start (capture_clients S mapping outs xids w).1
    unfolding capture_clients
    capture_clients-Reaches [] w r = r
    capture_clients-Reaches (xid ∷ xids) w r =
        capture_clients-Reaches xids _ (capture_window-Reaches xid w r)

    capture_window-Seen :
        (xid : Json) (w : S.World)
        → Reaches start w
        → All (Seen start mapping outs) (add (capture_window S mapping outs xid w).0 [])
    unfolding capture_window
    capture_window-Seen xid w r =
        capture_resolved-Seen xid w (resolve_pid S.hostname (S.window_reads xid w).0) r refl

    capture_clients-Seen :
        (xids : List Json) (w : S.World)
        → Reaches start w
        → All (Seen start mapping outs) (capture_clients S mapping outs xids w).0
    unfolding capture_clients
    capture_clients-Seen [] w r = tt
    capture_clients-Seen (xid ∷ xids) w r =
        All-add (Seen start mapping outs) (capture_window S mapping outs xid w).0
          (capture_clients S mapping outs xids (capture_window S mapping outs xid w).1).0
          (capture_window-Seen xid w r)
          (capture_clients-Seen xids (capture_window S mapping outs xid w).1
            (capture_window-Reaches xid w r))

    capture_monitors-Seen :
        (mons : List Json) (w : S.World)
        → Reaches start w
        → All (Seen start mapping outs) (capture_monitors S mapping outs mons w).0
    unfolding capture_monitors
    capture_monitors-Seen [] w r = tt
    capture_monitors-Seen (mon ∷ mons) w r =
        let u = (capture_clients S mapping outs (clients_of S mon) w).1 in
        All-append (Seen start mapping outs) (capture_clients S mapping outs (clients_of S mon) w).0
          (capture_monitors S mapping outs mons u).0 (capture_clients-Seen (clients_of S mon) w r)
          (capture_monitors-Seen mons u (capture_clients-Reaches (clients_of S mon) w r))

  -- The state behind the reads at the start of a capture.
  abbrev pub behind_reads : S.World → S.World
  behind_reads w = (S.read (S.get_monitors w).1).1

  -- The association and the outputs are those that a capture which starts in `w` reads first.
  pub record Associates (w : S.World) (mapping : Dict Key (Option String)) (outs : Outputs)
      : Type 0 where
    pub monitors : List Json
    pub listed : ((S.get_monitors w).0 >>= validate_monitors) ≡ ok monitors
    pub read_is : (S.read (S.get_monitors w).1).0 ≡ some outs
    pub matched : match_dwm_monitor_to_output monitors outs ≡ ok mapping

  -- No record, or records that are seen by one association.
  abbrev pub Traced : S.World → List Captured → Type 0
  Traced w records =
      (records ≡ [])
      ⊎ ((mapping : Dict Key (Option String)) × (outs : Outputs) × Associates w mapping outs
          × All (Seen (behind_reads w) mapping outs) records)

  capture_matched-Traced :
      (w : S.World) (mons : List Json) (outs : Outputs) (m : Result (Dict Key (Option String)))
      (records : List Captured)
      → ((S.get_monitors w).0 >>= validate_monitors) ≡ ok mons
      → (S.read (S.get_monitors w).1).0 ≡ some outs
      → match_dwm_monitor_to_output mons outs ≡ m
      → (capture_matched S mons outs m (behind_reads w)).0 ≡ ok records
      → Traced w records
  unfolding capture_matched
  capture_matched-Traced w mons outs (ok mapping) records listed read matched h = inr (
    mapping,
    outs,
    record { monitors = mons; listed = listed; read_is = read; matched = matched },
    subst (All (Seen (behind_reads w) mapping outs)) (ok_inj h)
        (capture_monitors-Seen (behind_reads w) mapping outs mons (behind_reads w) here),
  )
  capture_matched-Traced w mons outs unavailable records listed read matched h = ground arith
  capture_matched-Traced w mons outs raised records listed read matched h = ground arith

  capture_read-Traced :
      (w : S.World) (mons : List Json) (found : Option Outputs) (records : List Captured)
      → ((S.get_monitors w).0 >>= validate_monitors) ≡ ok mons
      → (S.read (S.get_monitors w).1).0 ≡ found
      → (capture_read S mons found (behind_reads w)).0 ≡ ok records
      → Traced w records
  unfolding capture_read
  capture_read-Traced w mons none records listed read h = inl (sym (ok_inj h))
  capture_read-Traced w mons (some outs) records listed read h =
      capture_matched-Traced w mons outs (match_dwm_monitor_to_output mons outs) records listed read
        refl h

  capture_listed-Traced :
      (w : S.World) (mons : Result (List Json)) (records : List Captured)
      → ((S.get_monitors w).0 >>= validate_monitors) ≡ mons
      → (capture_listed S mons (S.get_monitors w).1).0.0 ≡ ok records
      → Traced w records
  unfolding capture_listed
  capture_listed-Traced w unavailable records e h = inl (sym (ok_inj h))
  capture_listed-Traced w raised records e h = ground arith
  capture_listed-Traced w (ok mons) records e h =
      capture_read-Traced w mons (S.read (S.get_monitors w).1).0 records e refl h

  -- A capture that returns has no record, or it has read the monitors and the outputs first, and
  -- every record of it is that of a window whose process was resolved behind these reads and of dwm's
  -- reply on that window. Its connector is the one that the association of these monitors and outputs
  -- has for the monitor that the reply names, if it has one; and it has the EDID of that connector's
  -- output, where these outputs have one, and no other EDID.
  pub capture_windows-Traced :
      (w : S.World) (records : List Captured)
      → (capture_windows S w).0.0 ≡ ok records
      → Traced w records
  unfolding capture_windows
  capture_windows-Traced w records h =
      capture_listed-Traced w ((S.get_monitors w).0 >>= validate_monitors) records refl h
