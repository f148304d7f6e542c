-- ===== src/Tests/Reading.antt =====
-- xrandr.py at a server with a panel and a head that is unplugged and still driven.
use xrandrw.Prelude.{
  ℕ, zero, suc, String, true, false, ◌≡◌, refl, Option, none, some, [], ◌∷◌, All, ◌==◌, string_eq,
  nat_eq, if◌then◌else◌,
}
use xrandrw.Prelude.Int.{pos}
use xrandrw.Prelude.Dict.{DistinctKeys, lookup, insert, insert_all}
use xrandrw.Outputs.{Outputs}
use xrandrw.Outputs.Resources.{OutputInfo, Server, read}
use xrandrw.Outputs.Resources.Sound.{Shows, IsHeld, read-Shows}
use xrandrw.Outputs.Edids.{Source, answers, Bytes, edid_bytes_to_sha1, read_edids}
use xrandrw.Outputs.Edids.First.{answer_of, with_digests, read_edids-with_digests}
use xrandrw.Tests.Desktop.{panel, head}

abbrev output_info : ℕ → Option OutputInfo
output_info zero = some (record {
  oid = 0;
  name = "eDP-1";
  connection = 0;
  crtc = 71;
  modes = 9 ∷ 8 ∷ [];
  num_preferred = 1;
})
output_info (suc n) =
    some (record {
      oid = 1;
      name = "HDMI-1";
      connection = 1;
      crtc = 72;
      modes = [];
      num_preferred = 0;
    })

abbrev server : Server
server = record {
  output_ids = 0 ∷ 1 ∷ [];
  modes = record { id = 9; width = pos 1920; height = pos 1200 } ∷ [];
  primary_id = 0;
  get_output_info = output_info;
  get_crtc_info =
      λ c. some (record { x = pos 0; y = pos 0; width = pos 1920; height = pos 1200; current = 9 });
}

abbrev shown : Outputs
shown =
    (
      "eDP-1",
      record panel {
        modes =
            record { width = pos 1920; height = pos 1200; is_current = true; is_preferred = true }
            ∷ [];
      },
    )
    ∷ (
      "HDMI-1",
      record {
        name = "HDMI-1";
        connected = false;
        primary = false;
        current_mode = some (pos 1920, pos 1200);
        position = some (pos 0, pos 0);
        modes = [];
        edid_sha1 = none;
      },
    )
    ∷ []

served : read server ≡ some shown
unfolding read lookup insert_all insert
served = refl

read-Shows_example :
    All (IsHeld server shown) server.output_ids × All (Shows server) shown × DistinctKeys shown
read-Shows_example = read-Shows server shown served

-- The panel has a file under /sys, the head a property.
abbrev sysfs : String → Option Bytes
sysfs n = if n == "eDP-1" then some (1 ∷ 2 ∷ []) else none

abbrev digest : Bytes → String
digest bytes = "da39"

abbrev edid_source : Source
edid_source = record {
  sysfs = sysfs;
  native = answers (("HDMI-1", 66) ∷ []);
  property = λ oid. some (3 ∷ []);
  sha1 = digest;
}

abbrev bare : Outputs
bare = ("eDP-1", panel) ∷ ("HDMI-1", record head { edid_sha1 = none }) ∷ []

read_edids-with_digests_example :
    (read_edids edid_source bare).0
    ≡ with_digests edid_source
        (λ n.
          edid_bytes_to_sha1 edid_source (answer_of edid_source (answers (("HDMI-1", 66) ∷ [])) n))
        bare
read_edids-with_digests_example =
    read_edids-with_digests edid_source (λ bytes. refl) bare (refl, (refl, tt))

both_found :
    (read_edids edid_source bare).0
    ≡ ("eDP-1", record panel { edid_sha1 = some "da39" })
      ∷ ("HDMI-1", record head { edid_sha1 = some "da39" })
      ∷ []
unfolding read_edids lookup
both_found = refl
