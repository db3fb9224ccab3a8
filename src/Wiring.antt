-- ===== src/Wiring.antt =====
-- crates/engine/src/wiring.rs: the text edits that `apply` and `revert` make, as functions of the
-- text of the file. The children run them on the machine.
pub mod Markers
pub mod Cut
pub mod Machine
pub mod ShellRc
pub mod System
pub mod Apt
pub mod Apply
pub mod Restore
pub mod Total
pub mod Purge
mod Tests
use envctl.Prelude.{
  ℕ, ◌+◌, ◌≡◌, Bool, true, false, not, ◌&&◌, ◌||◌, Option, none, some, List, [], ◌∷◌, ◌++◌,
  if◌then◌else◌, Bytes, codes, length, is_empty, any, ◌==◌, List_eq, ℕ_eq,
}
use envctl.Text.{starts_with}
use envctl.Drift.{contains}
use envctl.Host.{trim_start, trim_end}
use envctl.Slices.{take, drop, find}
use envctl.Manifest.{ShellRcBlock, Wiring}

abbrev pub newline : ℕ
newline = 10

-- The two lines of `markers`.
abbrev pub begin_marker : Bytes → Bytes
begin_marker marker = codes "# >>> BEGIN " ++ (marker ++ codes " (added by envctl) >>>")

abbrev pub end_marker : Bytes → Bytes
end_marker marker = codes "# <<< END " ++ (marker ++ codes " <<<")

unfoldable pub path_line : Bytes → Bytes
path_line dir =
    codes "case \":$PATH:\" in *\":"
    ++ (dir
        ++ (codes ":\"*) ;; *) export PATH=\""
            ++ (dir ++ (codes ":$PATH\";; esac" ++ (newline ∷ [])))))

abbrev pub path_lines : List Bytes → Bytes
path_lines [] = []
path_lines (dir ∷ dirs) = path_line dir ++ path_lines dirs

unfoldable pub path_export_block : Wiring → Option ShellRcBlock
path_export_block w =
    if is_empty w.path_entries
    then none
    else some (record {
      file = codes "~/.bashrc";
      marker = codes "envctl PATH";
      content = path_lines w.path_entries;
    })

-- What `apply_shell_rc` appends.
unfoldable pub block_text : ShellRcBlock → Bytes
block_text blk =
    newline
    ∷ (begin_marker blk.marker
        ++ (newline
            ∷ (trim_end blk.content ++ (newline ∷ (end_marker blk.marker ++ (newline ∷ []))))))

-- The branches of `revert_shell_rc`, for a text that could be read.
pub data Excision : Type 0 where
  absent unterminated ambiguous : Excision
  excised : Bytes → Excision

-- The end of the span, the end marker's newline included.
unfoldable pub span_end : (text : Bytes) → ℕ → ℕ
span_end text i = if starts_with (drop text i) (newline ∷ []) then i + 1 else i

unfoldable pub cut : (begin text : Bytes) → (bi span_end : ℕ) → Excision
cut begin text bi j =
    if contains (drop text j) begin then ambiguous else excised (take text bi ++ drop text j)

unfoldable pub excise_from : (begin end text : Bytes) → (bi : ℕ) → Excision
unfolding span_end cut
excise_from begin end text bi = elim (find (drop text bi) end) [
  | none ↦ unterminated
  | some j ↦ cut begin text bi (span_end text (bi + j + length end))
]

unfoldable pub excise : (begin end text : Bytes) → Excision
unfolding excise_from
excise begin end text = elim (find text begin) [
  | none ↦ absent
  | some bi ↦ excise_from begin end text bi
]

-- `foreign_path_line`: the loop over the lines, with `in_block`.
unfoldable pub foreign_from : (in_block : Bool) → List Bytes → Bool
foreign_from in_block [] = false
foreign_from in_block (line ∷ lines) =
    let t = trim_start line in
    let opens = starts_with t (codes "# >>> BEGIN ") && contains t (codes "(added by envctl)") in
    let closes = starts_with t (codes "# <<< END ") in
    let sets_path =
      (starts_with t (codes "export PATH=") || starts_with t (codes "PATH="))
      && (contains t (codes ":$PATH") || contains t (codes ":${PATH}")) in
    let rest = foreign_from (if opens then true else if closes then false else in_block) lines in
    if not opens && (not closes && (not in_block && sets_path)) then true else rest

-- `sh_q`: each quote becomes '\''.
abbrev pub quote_escaped : Bytes → Bytes
quote_escaped [] = []
quote_escaped (c ∷ s) = if c == b'\'' then codes "'\\''" ++ quote_escaped s else c ∷ quote_escaped s

unfoldable pub sh_q : Bytes → Bytes
sh_q s = codes "'" ++ (quote_escaped s ++ codes "'")

-- `check_list_file` refuses what is not a single path component.
unfoldable pub check_list_file : Bytes → Bool
check_list_file list_file = not (
    is_empty list_file
    || (contains list_file (codes "/") || (list_file == codes "." || list_file == codes "..")))
