-- ===== src/Windows/Capture/Built.antt =====
-- A record of windows.py against the window, the process and the client that it is built from.
use mathlib.Core.Path.{subst}
use xrandrw.Prelude.{String, ◌≡◌, refl, ◌∙◌, ap, Option, string_eq}
use xrandrw.Json.{Json, key_eq, ok, index, truthy, ◌>>=◌, >>=-ok, ok_inj}
use xrandrw.Windows.Process.{ProcIdentity}
use xrandrw.Windows.Capture.{Captured, to_int, client_geometry, or_raise, build_record}

-- The record is the one of this window, this process and this client, with this connector and EDID.
pub record IsBuilt (xid : Json) (identity : ProcIdentity) (client : Json) (r : Captured)
    : Type 0 where
  pub xid_is : or_raise (to_int xid) ≡ ok r.xid
  pub pid_is : r.pid ≡ identity.pid
  pub starttime_is : r.starttime ≡ identity.starttime
  pub comm_is : r.comm ≡ identity.comm
  pub cmdline_is : r.cmdline ≡ identity.cmdline
  pub monitor_is : index "monitor_number" client ≡ ok r.monitor_number
  pub tags_is : index "tags" client ≡ ok r.tags
  pub geometry_is : client_geometry client ≡ ok r.geometry
  pub floating_is :
      (index "states" client >>= index "is_floating" >>= λ j. ok (truthy j)) ≡ ok r.is_floating
  pub fullscreen_is :
      (index "states" client >>= index "is_fullscreen" >>= λ j. ok (truthy j)) ≡ ok r.is_fullscreen

pub build_record-IsBuilt :
    (xid : Json) (identity : ProcIdentity) (client : Json) (connector edid : Option String)
    (r : Captured)
    → build_record xid identity client connector edid ≡ ok r
    → IsBuilt xid identity client r × (r.output ≡ connector) × (r.edid ≡ edid)
unfolding build_record
build_record-IsBuilt xid identity client connector edid r h =
    let (states, es, h1) = >>=-ok (index "states" client) _ r h in
    let (x, ex, h2) = >>=-ok (or_raise (to_int xid)) _ r h1 in
    let (m, em, h3) = >>=-ok (index "monitor_number" client) _ r h2 in
    let (t, et, h4) = >>=-ok (index "tags" client) _ r h3 in
    let (f, ef, h5) = >>=-ok (index "is_floating" states) _ r h4 in
    let (u, eu, h6) = >>=-ok (index "is_fullscreen" states) _ r h5 in
    let (g, eg, h7) = >>=-ok (client_geometry client) _ r h6 in
    subst
      (λ (q : Captured). IsBuilt xid identity client q × (q.output ≡ connector) × (q.edid ≡ edid))
      (ok_inj h7)
      (
        record {
          xid_is = ex;
          pid_is = refl;
          starttime_is = refl;
          comm_is = refl;
          cmdline_is = refl;
          monitor_is = em;
          tags_is = et;
          geometry_is = eg;
          floating_is =
              ap (λ o. o >>= index "is_floating" >>= λ j. ok (truthy j)) es
              ∙ ap (λ o. o >>= λ j. ok (truthy j)) ef;
          fullscreen_is =
              ap (λ o. o >>= index "is_fullscreen" >>= λ j. ok (truthy j)) es
              ∙ ap (λ o. o >>= λ j. ok (truthy j)) eu;
        },
        refl,
        refl,
      )
