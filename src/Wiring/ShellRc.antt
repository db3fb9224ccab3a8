-- ===== src/Wiring/ShellRc.antt =====
-- crates/engine/src/wiring.rs: `apply_shell_rc` and `revert_shell_rc`.
use envctl.Prelude.{false, ◌&&◌, Option, none, some, [], ◌++◌, if◌then◌else◌, Bytes, codes}
use envctl.Drift.{contains}
use envctl.Host.{Host, expand_tilde}
use envctl.Slices.{lines}
use envctl.Manifest.{ShellRcBlock}
use envctl.Wiring.{
  begin_marker, end_marker, block_text, Excision, absent, unterminated, ambiguous, excised, excise,
  foreign_from,
}
use envctl.Wiring.Machine.{
  Machine, Edit, pure, see, change, ◌>>=◌, ◌>>◌, file_op, note, fail, whenever,
}

abbrev pub unwrap_or_default : Option Bytes → Bytes
unwrap_or_default none = []
unwrap_or_default (some text) = text

module _ {W : Type 0} (host : Host W) (m : Machine W) where
  -- `fs::copy(path, "{path}.bak.{now}")`, its result ignored
  abbrev pub back_up : (path : Bytes) → Edit W (Unit {0})
  back_up path = change tt λ w. m.copy path (path ++ (codes ".bak." ++ m.now_epoch w)) w

  unfoldable pub append_block : (file : Bytes) → ShellRcBlock → Edit W (Unit {0})
  append_block file blk = do
    exists ← see (λ w. host.exists w file)
    whenever exists (back_up file)
    file_op (m.append file (block_text blk))

  unfoldable pub apply_shell_rc : ShellRcBlock → Edit W (Unit {0})
  unfolding append_block
  apply_shell_rc blk = do
    existing ←
        see (λ w. unwrap_or_default (host.read_to_string w (expand_tilde host.home blk.file)))
    if contains existing (begin_marker blk.marker)
        then pure tt
        else append_block (expand_tilde host.home blk.file) blk

  unfoldable pub write_excision :
      (file : Bytes) → ShellRcBlock → (text : Bytes) → Excision → Edit W (Unit {0})
  write_excision file blk text absent =
      whenever (contains blk.marker (codes "PATH") && foreign_from false (lines text)) (
        note (codes "left a foreign PATH edit in " ++ (file ++ codes " intact (not envctl-owned)")))
  write_excision file blk text unterminated = fail (codes "shell_rc") (
      codes "unterminated envctl block '"
      ++ (blk.marker ++ (codes "' in " ++ (file ++ codes " — left untouched (excise it by hand)"))))
  write_excision file blk text ambiguous = fail (codes "shell_rc") (
      codes "multiple envctl blocks '"
      ++ (blk.marker ++ (codes "' in " ++ (file ++ codes " — left untouched (excise by hand)"))))
  write_excision file blk text (excised out) = do
    back_up file
    file_op (m.write file out)
    note (codes "excised envctl-owned block '" ++ (blk.marker ++ (codes "' from " ++ file)))

  unfoldable pub revert_read : (file : Bytes) → ShellRcBlock → Option Bytes → Edit W (Unit {0})
  unfolding write_excision
  revert_read file blk none = pure tt
  revert_read file blk (some text) =
      write_excision file blk text (excise (begin_marker blk.marker) (end_marker blk.marker) text)

  unfoldable pub revert_shell_rc : ShellRcBlock → Edit W (Unit {0})
  unfolding revert_read
  revert_shell_rc blk = do
    text ← see (λ w. host.read_to_string w (expand_tilde host.home blk.file))
    revert_read (expand_tilde host.home blk.file) blk text
