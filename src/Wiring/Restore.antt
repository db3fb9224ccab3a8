-- ===== src/Wiring/Restore.antt =====
-- crates/engine/src/wiring.rs: what `apply_shell_rc` and `revert_shell_rc` make of the file, on a
-- machine whose file operations do what their documentation says.
use envctl.Prelude.{
  ℕ, ◌≡◌, ◌≢◌, ◌⊎◌, inl, inr, refl, ap, ◌∙◌, Bool, true, false, Option, none, some, [], ◌∷◌, ◌++◌,
  arith, Bytes, codes, length, length-append, ℕ_eq,
}
use envctl.Drift.{contains}
use envctl.Host.{Host, expand_tilde}
use envctl.Manifest.{ShellRcBlock}
use envctl.Wiring.{
  newline, begin_marker, end_marker, block_text, Excision, absent, unterminated, ambiguous, excised,
  excise,
}
use envctl.Wiring.Markers.{IsOwned, excise-block_text}
use envctl.Wiring.Cut.{IsCut, excise-IsCut, excised-contains}
use envctl.Wiring.Machine.{Machine, ok, State, ◌>>◌, checked, whenever, file_op, note, continue}
use envctl.Wiring.ShellRc.{
  back_up, append_block, apply_shell_rc, write_excision, revert_read, revert_shell_rc,
}

-- Reading shows what was appended and written, and a copy changes no other path.
pub record IsFaithful {W : Type 0} (host : Host W) (m : Machine W) : Type 0 where
  pub copied :
      (path to other : Bytes) (w : W)
      → to ≢ other
      → host.read_to_string (m.copy path to w) other ≡ host.read_to_string w other
  pub appended :
      (path text body : Bytes) (w : W)
      → host.read_to_string w path ≡ some text
      → (m.append path body w).1 ≡ none
      → host.read_to_string (m.append path body w).0 path ≡ some (text ++ body)
  pub written :
      (path body : Bytes) (w : W)
      → (m.write path body w).1 ≡ none
      → host.read_to_string (m.write path body w).0 path ≡ some body

checked-ok : (o : Option Bytes) → checked o ≡ ok tt → o ≡ none
checked-ok none e = refl
checked-ok (some x) e = cc

longer-ne : (xs ys : Bytes) (c : ℕ) → xs ++ (c ∷ ys) ≢ xs
longer-ne xs ys c e = omega (arith, length-append xs (c ∷ ys), ap length e)

module _ {W : Type 0} (host : Host W) (m : Machine W) (f : IsFaithful host m) where
  backed_up : (path : Bytes) → State W → W
  backed_up path s = (back_up host m path s).0.world

  read-backed_up :
      (path : Bytes) (s : State W)
      → host.read_to_string (backed_up path s) path ≡ host.read_to_string s.world path
  unfolding backed_up
  read-backed_up path s = f.copied path _ path s.world (longer-ne path _ _)

  append_block-read :
      (file text : Bytes) (blk : ShellRcBlock) (s : State W)
      → host.read_to_string s.world file ≡ some text
      → (append_block host m file blk s).1 ≡ ok tt
      → host.read_to_string (append_block host m file blk s).0.world file
        ≡ some (text ++ block_text blk)
  unfolding append_block backed_up
  append_block-read file text blk s r = by_exists (host.exists s.world file)
    where
      by_exists :
          (b : Bool)
          → ((whenever b (back_up host m file) >> file_op (m.append file (block_text blk))) s).1
            ≡ ok tt
          → host.read_to_string
              ((whenever b (back_up host m file) >> file_op (m.append file (block_text blk)))
                s).0.world
              file
            ≡ some (text ++ block_text blk)
      by_exists true e =
          f.appended file text (block_text blk) _ (read-backed_up file s ∙ r) (checked-ok _ e)
      by_exists false e = f.appended file text (block_text blk) s.world r (checked-ok _ e)

  excised-read :
      (file text out : Bytes) (blk : ShellRcBlock) (s : State W)
      → (write_excision host m file blk text (excised out) s).1 ≡ ok tt
      → host.read_to_string (write_excision host m file blk text (excised out) s).0.world file
        ≡ some out
  unfolding write_excision backed_up
  excised-read file text out blk s = by_outcome (m.write file out (backed_up file s)).1 refl
    where
      said : Bytes
      said = codes "excised envctl-owned block '" ++ (blk.marker ++ (codes "' from " ++ file))

      after : State W
      after = record s { world = (m.write file out (backed_up file s)).0 }

      by_outcome :
          (o : Option Bytes)
          → (m.write file out (backed_up file s)).1 ≡ o
          → (continue (checked o) (λ u. note said) after).1 ≡ ok tt
          → host.read_to_string (continue (checked o) (λ u. note said) after).0.world file
            ≡ some out
      by_outcome none q e = f.written file out (backed_up file s) q
      by_outcome (some x) q e = cc

  module _ (blk : ShellRcBlock) where
    rc_file : Bytes
    rc_file = expand_tilde host.home blk.file

    -- A block that is there is not appended again.
    present-unchanged :
        (text : Bytes) (s : State W)
        → host.read_to_string s.world rc_file ≡ some text
        → contains text (begin_marker blk.marker) ≡ true
        → apply_shell_rc host m blk s ≡ (s, ok tt)
    unfolding apply_shell_rc rc_file
    present-unchanged text s r h = rw (apply_shell_rc, r, h) refl

    append-read :
        (text : Bytes) (s : State W)
        → host.read_to_string s.world rc_file ≡ some text
        → contains text (begin_marker blk.marker) ≡ false
        → (apply_shell_rc host m blk s).1 ≡ ok tt
        → host.read_to_string (apply_shell_rc host m blk s).0.world rc_file
          ≡ some (text ++ block_text blk)
    unfolding rc_file apply_shell_rc append_block
    append-read text s r h =
        let at : apply_shell_rc host m blk s ≡ append_block host m rc_file blk s =
          rw (apply_shell_rc, r, h) refl in
        rw at (append_block-read rc_file text blk s r)

    excise-read :
        (text out : Bytes) (s : State W)
        → host.read_to_string s.world rc_file ≡ some text
        → excise (begin_marker blk.marker) (end_marker blk.marker) text ≡ excised out
        → (revert_shell_rc host m blk s).1 ≡ ok tt
        → host.read_to_string (revert_shell_rc host m blk s).0.world rc_file ≡ some out
    unfolding rc_file revert_shell_rc revert_read
    excise-read text out s r h =
        let at : revert_shell_rc host m blk s
            ≡ write_excision host m rc_file blk text (excised out) s =
          rw (revert_shell_rc, r, revert_read, h) refl in
        rw at (excised-read rc_file text out blk s)

  -- On a machine with faithful file operations, for a block whose markers are single lines and whose
  -- own text does not hold the end marker, and for a readable file without the begin marker: when
  -- apply_shell_rc and then revert_shell_rc end without an error, a second apply_shell_rc in between
  -- changes nothing, and the file holds its old text again, followed by one more newline.
  pub revert-apply :
      (blk : ShellRcBlock) (text : Bytes) (s : State W)
      → IsOwned blk
      → host.read_to_string s.world (expand_tilde host.home blk.file) ≡ some text
      → contains text (begin_marker blk.marker) ≡ false
      → (apply_shell_rc host m blk s).1 ≡ ok tt
      → (revert_shell_rc host m blk (apply_shell_rc host m blk s).0).1 ≡ ok tt
      → (apply_shell_rc host m blk (apply_shell_rc host m blk s).0
          ≡ ((apply_shell_rc host m blk s).0, ok tt))
        × (host.read_to_string
              (revert_shell_rc host m blk (apply_shell_rc host m blk s).0).0.world
              (expand_tilde host.home blk.file)
            ≡ some (text ++ (newline ∷ [])))
  unfolding rc_file
  revert-apply blk text s o r h a b =
      let s1 = (apply_shell_rc host m blk s).0 in
      let r1 = append-read blk text s r h a in
      let cut = excise-block_text text blk o h in
      (
        present-unchanged blk (text ++ block_text blk) s1 r1 (excised-contains _ _ _ _ cut),
        excise-read blk (text ++ block_text blk) (text ++ (newline ∷ [])) s1 r1 cut b,
      )

module _ {W : Type 0} (host : Host W) (m : Machine W) (blk : ShellRcBlock) (s : State W) where
  -- The machine is as it was, or the file was backed up and then written with one span cut out.
  abbrev pub IsSurgical : W → Type 0
  IsSurgical w =
      let file = expand_tilde host.home blk.file in
      (w ≡ s.world)
      ⊎ ((text : Bytes) × (out : Bytes) × (host.read_to_string s.world file ≡ some text)
          × (IsCut (begin_marker blk.marker) (end_marker blk.marker) text out)
          × (w ≡ (m.write file out (back_up host m file s).0.world).0))

  -- On any machine, for any block and any text, revert_shell_rc leaves the machine as it was, or backs
  -- the file up and then writes it with one span cut out: the span begins at the text's first begin
  -- marker and ends with the first end marker after it and that line's newline where it has one,
  -- and no begin marker follows it.
  pub revert_shell_rc-IsSurgical : IsSurgical (revert_shell_rc host m blk s).0.world
  unfolding revert_shell_rc revert_read write_excision
  revert_shell_rc-IsSurgical =
      by_text (host.read_to_string s.world (expand_tilde host.home blk.file)) refl
    where
      file : Bytes
      file = expand_tilde host.home blk.file

      -- the state after the write, whatever its outcome
      by_outcome :
          (o : Option Bytes) (said : Bytes) (s' : State W)
          → (continue (checked o) (λ u. note said) s').0.world ≡ s'.world
      by_outcome none said s' = refl
      by_outcome (some x) said s' = refl

      by_foreign : (b : Bool) (said : Bytes) → (whenever b (note said) s).0.world ≡ s.world
      by_foreign true said = refl
      by_foreign false said = refl

      by_excision :
          (text : Bytes) (x : Excision)
          → host.read_to_string s.world file ≡ some text
          → excise (begin_marker blk.marker) (end_marker blk.marker) text ≡ x
          → IsSurgical (write_excision host m file blk text x s).0.world
      by_excision text absent r e = inl (by_foreign _ _)
      by_excision text unterminated r e = inl refl
      by_excision text ambiguous r e = inl refl
      by_excision text (excised out) r e =
          inr (text, out, r, excise-IsCut _ _ text out e, by_outcome _ _ _)

      by_text :
          (o : Option Bytes)
          → host.read_to_string s.world file ≡ o
          → IsSurgical (revert_read host m file blk o s).0.world
      by_text none r = inl refl
      by_text (some text) r = by_excision text _ r refl
