-- ===== src/Windows/Process/Local.antt =====
-- What a process that windows.py resolves a window to is known to be.
use mathlib.Core.Path.{subst}
use mathlib.Core.Option.{some-injective}
use xrandrw.Prelude.{
  String, false, ◌≡◌, refl, ◌∙◌, sym, ap, Option, none, some, arith, ◌==◌, string_eq, Bool-cases,
  ◌⊎◌, inl, inr,
}
use xrandrw.Prelude.Partial.{◌>>=◌, >>=-some}
use xrandrw.Prelude.Int.{ℤ, pos, int_eq}
use xrandrw.Prelude.Text.{is_empty, strip}
use xrandrw.Windows.Process.{
  ProcReads, ProcIdentity, WindowReads, text_of, parse_starttime_from_stat, read_proc_comm,
  read_proc_cmdline, read_proc_identity, is_remote, nonzero, pid_of, resolve_pid,
}

-- Both reads of `stat` show the start time, and the names were read in between.
pub record IsOne (pid : ℤ) (reads : ProcReads) (id : ProcIdentity) : Type 0 where
  pub pid_is : id.pid ≡ pid
  pub before : (text_of reads.stat >>= parse_starttime_from_stat) ≡ some id.starttime
  pub comm_is : read_proc_comm reads.comm ≡ some id.comm
  pub cmdline_is : id.cmdline ≡ read_proc_cmdline reads.cmdline
  pub after : (text_of reads.stat_again >>= parse_starttime_from_stat) ≡ some id.starttime

read_proc_identity-IsOne :
    (pid : ℤ) (reads : ProcReads) (id : ProcIdentity)
    → read_proc_identity pid reads ≡ some id
    → IsOne pid reads id
unfolding read_proc_identity
read_proc_identity-IsOne pid reads id h =
    let (s, es, h1) = >>=-some (text_of reads.stat) _ id h in
    let (t, et, h2) = >>=-some (parse_starttime_from_stat s) _ id h1 in
    let (c, ec, h3) = >>=-some (read_proc_comm reads.comm) _ id h2 in
    let (s', es', h4) = >>=-some (text_of reads.stat_again) _ id h3 in
    let (t', et', h5) = >>=-some (parse_starttime_from_stat s') _ id h4 in
    elim (Bool-cases (t' == t)) [
      | inl same ↦ subst (IsOne pid reads) (some-injective _ _ (rw same at h5)) (record {
        pid_is = refl;
        before = ap (λ o. o >>= parse_starttime_from_stat) es ∙ et;
        comm_is = ec;
        cmdline_is = refl;
        after =
            ap (λ o. o >>= parse_starttime_from_stat) es'
            ∙ (et' ∙ ap some ((int_eq.beq_iff t' t).0 same));
      })
      | inr other ↦ ground (arith, h5, other)
    ]

is_remote-near :
    (hostname machine : String)
    → is_remote hostname (some machine) ≡ false
    → is_empty (strip machine) ≡ false
    → strip machine ≡ hostname
is_remote-near hostname machine h e = elim (Bool-cases (strip machine == hostname)) [
  | inl same ↦ (string_eq.beq_iff (strip machine) hostname).0 same
  | inr other ↦ ground (arith, h, e, other)
]

-- The window has no such property, or a zero in it.
abbrev pub LacksPid : WindowReads → Type 0
LacksPid w = (w.net_wm_pid ≡ none) ⊎ (w.net_wm_pid ≡ some (pos 0))

nonzero-some : (p : ℤ) → (p == pos 0) ≡ false → nonzero (some p) ≡ some p
nonzero-some p h = rw h refl

some-nonzero : (o : Option ℤ) (p : ℤ) → nonzero o ≡ some p → o ≡ some p
some-nonzero none p h = h
some-nonzero (some q) p h = elim (Bool-cases (q == pos 0)) [
  | inl zero ↦ ground (arith, rw zero at h)
  | inr other ↦ rw other at h
]

pid_of-property :
    (w : WindowReads) (p q : ℤ)
    → pid_of w ≡ some q
    → w.net_wm_pid ≡ some p
    → (p == pos 0) ≡ false
    → q ≡ p
pid_of-property w p q h e n =
    let found : nonzero w.net_wm_pid ≡ some p = ap nonzero e ∙ nonzero-some p n in
    sym (some-injective _ _ (rw (found, pid_of) at h))

pid_of-extension : (w : WindowReads) (q : ℤ) → pid_of w ≡ some q → LacksPid w → w.xres_pid ≡ some q
pid_of-extension w q h (inl e) = some-nonzero w.xres_pid q (rw (ap nonzero e, pid_of) at h)
pid_of-extension w q h (inr e) = some-nonzero w.xres_pid q (rw (ap nonzero e, pid_of) at h)

-- A window that is resolved to a process names this host as its machine, if it names one; the process
-- is the one of its property where that is not zero, and else the one that the X-Resource extension
-- answers; and its start time was the same before and after its names were read.
pub resolve_pid-IsOne :
    (hostname : String) (w : WindowReads) (id : ProcIdentity)
    → resolve_pid hostname w ≡ some id
    → ((machine : String)
        → w.client_machine ≡ some machine
        → is_empty (strip machine) ≡ false
        → strip machine ≡ hostname)
      × ((p : ℤ) → w.net_wm_pid ≡ some p → (p == pos 0) ≡ false → id.pid ≡ p)
      × (LacksPid w → w.xres_pid ≡ some id.pid)
      × IsOne id.pid (w.proc id.pid) id
unfolding resolve_pid
resolve_pid-IsOne hostname w id h = elim (Bool-cases (is_remote hostname w.client_machine)) [
  | inl remote ↦ ground (arith, rw remote at h)
  | inr near ↦
      let (pid, e, found) =
        >>=-some (pid_of w) (λ pid. read_proc_identity pid (w.proc pid)) id (rw near at h) in
      let one = read_proc_identity-IsOne pid (w.proc pid) id found in
      let its : pid_of w ≡ some id.pid = e ∙ ap some (sym one.pid_is) in
      (
        λ machine m. is_remote-near hostname machine (rw (ap (is_remote hostname) m) at near),
        λ p. pid_of-property w p id.pid its,
        pid_of-extension w id.pid its,
        subst (λ p. IsOne p (w.proc p) id) (sym one.pid_is) one,
      )
]
