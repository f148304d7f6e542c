-- ===== src/Windows/Process.antt =====
-- xrandrw/windows.py: from a window to its process. The files under /proc, the window properties
-- and the host's name are parameters: what each read of them gives, in the order of the reads.
pub mod Stat
pub mod Local
use Prim.Native.Char.{Char}
use Prim.Native.String
use xrandrw.Prelude.{
  ℕ, zero, suc, String, Bool, true, false, not, ◌&&◌, ◌||◌, Option, none, some, List, [], ◌∷◌, Eq,
  ◌==◌, string_eq, nat_eq, length, ltb, if◌then◌else◌,
}
use xrandrw.Prelude.Partial.{◌>>=◌}
use xrandrw.Prelude.Int.{ℤ, pos, int_eq}
use xrandrw.Prelude.Text.{is_empty, is_char, strip, rpartition, words, parse_int}

abbrev pub get_elem? {ℓ} : {A : Type ℓ} → List A → ℕ → Option A
get_elem? [] i = none
get_elem? (x ∷ xs) zero = some x
get_elem? (x ∷ xs) (suc i) = get_elem? xs i

-- `none` is a ValueError.
unfoldable pub parse_starttime_from_stat : String → Option ℤ
parse_starttime_from_stat stat_text = do
  parts ← rpartition b')' stat_text
  field ← get_elem? (words parts.1) 19
  parse_int field

-- `f.read().rstrip("\n")`
unfoldable pub rstrip_newlines : String → String
rstrip_newlines String.[] = String.[]
rstrip_newlines (String.◌∷◌ c s) =
    let rest = rstrip_newlines s in
    if is_char 10 c && is_empty rest then String.[] else String.◌∷◌ c rest

abbrev space_for_nul : Char → Char
space_for_nul c = if is_char 0 c then " " else c

unfoldable pub replace_nul : String → String
replace_nul String.[] = String.[]
replace_nul (String.◌∷◌ c s) = String.◌∷◌ (space_for_nul c) (replace_nul s)

-- A file as it is read, or the kind of exception.
pub data FileText : Type 0 where
  contents : String → FileText
  os_error undecodable : FileText

-- The four reads of `read_proc_identity`, one after the other; a `cmdline` is decoded with replacement.
pub record ProcReads : Type 0 where
  pub stat : FileText
  pub comm : FileText
  pub cmdline : FileText
  pub stat_again : FileText

pub record ProcIdentity : Type 0 where
  pub pid : ℤ
  pub starttime : ℤ
  pub comm : String
  pub cmdline : Option String

-- `open(...).read()` where OSError and ValueError are caught around
abbrev pub text_of : FileText → Option String
text_of (contents s) = some s
text_of _ = none

unfoldable pub read_proc_comm : FileText → Option String
unfolding rstrip_newlines
read_proc_comm (contents s) = some (rstrip_newlines s)
read_proc_comm _ = none

-- `text or None`
unfoldable pub read_proc_cmdline : FileText → Option String
unfolding replace_nul strip
read_proc_cmdline (contents s) =
    let text = strip (replace_nul s) in if is_empty text then none else some text
read_proc_cmdline _ = none

unfoldable pub read_proc_identity : ℤ → ProcReads → Option ProcIdentity
read_proc_identity pid reads = do
  stat_text ← text_of reads.stat
  starttime ← parse_starttime_from_stat stat_text
  comm ← read_proc_comm reads.comm
  stat_text_again ← text_of reads.stat_again
  starttime_confirm ← parse_starttime_from_stat stat_text_again
  if starttime_confirm == starttime
      then some (record {
        pid = pid;
        starttime = starttime;
        comm = comm;
        cmdline = read_proc_cmdline reads.cmdline;
      })
      else none

-- What the seam `WindowXReader` answers of one window; it raises nothing.
pub record WindowReads : Type 0 where
  pub client_machine : Option String
  pub net_wm_pid : Option ℤ
  pub xres_pid : Option ℤ
  -- the reads under /proc of a process
  pub proc : ℤ → ProcReads

-- `pid` if it is truthy
abbrev pub nonzero : Option ℤ → Option ℤ
nonzero none = none
nonzero (some pid) = if pid == pos 0 then none else some pid

-- `machine and machine.strip() and machine.strip() != hostname`
abbrev pub is_remote : String → Option String → Bool
is_remote hostname none = false
is_remote hostname (some machine) =
    let name = strip machine in not (is_empty name) && not (name == hostname)

-- The property, or else the answer of the X-Resource extension.
abbrev pub pid_of : WindowReads → Option ℤ
pid_of w = elim (nonzero w.net_wm_pid) [ some pid ↦ some pid | none ↦ nonzero w.xres_pid ]

unfoldable pub resolve_pid : String → WindowReads → Option ProcIdentity
resolve_pid hostname w =
    let found = pid_of w >>= λ pid. read_proc_identity pid (w.proc pid) in
    if is_remote hostname w.client_machine then none else found
