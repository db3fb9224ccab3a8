-- ===== src/Wiring/Machine.antt =====
-- What crates/engine/src/wiring.rs asks of the machine beyond `Host`, and its fallible edits: an edit
-- changes the machine and the report, and what it did before an error stays done.
use envctl.Prelude.{
  ℕ, Bool, true, false, ◌&&◌, ◌||◌, Option, none, some, List, [], ◌∷◌, ◌++◌, Bytes,
}
use envctl.Host.{WiringReport}

-- How a command ended: it could not be started, or it exited, with its code as `{:?}` prints it.
pub data Exit : Type 0 where
  not_started : (error : Bytes) → Exit
  exited : (success : Bool) → (code : Bytes) → Exit

-- A file operation gives its error, if any. `copy` is only called with its result ignored.
pub record Machine (W : Type 0) : Type 0 where
  pub xdg_config_home : Option Bytes
  pub is_symlink : W → Bytes → Bool
  pub resolve : W → Bytes → Option Bytes
  pub now_epoch : W → Bytes
  pub parent : Bytes → Option Bytes
  pub to_string : ℕ → Bytes
  pub copy : (path to : Bytes) → W → W
  pub append : (path body : Bytes) → W → W × Option Bytes
  pub write : (path body : Bytes) → W → W × Option Bytes
  pub rename : (path to : Bytes) → W → W × Option Bytes
  pub remove_file : Bytes → W → W × Option Bytes
  pub create_dir_all : Bytes → W → W × Option Bytes
  pub status : (argv : List Bytes) → W → W × Exit
  pub pipe : (argv : List Bytes) → (stdin : Bytes) → W → W × Exit

pub record State (W : Type 0) : Type 0 where
  pub world : W
  pub report : WiringReport

pub data Result (A : Type 0) : Type 0 where
  ok : A → Result A
  err : Bytes → Result A

abbrev pub Edit : Type 0 → Type 0 → Type 0
Edit W A = State W → State W × Result A

abbrev pub checked : Option Bytes → Result (Unit {0})
checked none = ok tt
checked (some e) = err e

module _ {W A : Type 0} where
  abbrev pub pure : A → Edit W A
  pure a s = (s, ok a)

  abbrev pub bail : Bytes → Edit W A
  bail e s = (s, err e)

  -- What the machine shows.
  abbrev pub see : (W → A) → Edit W A
  see f s = (s, ok (f s.world))

  -- A change of the machine that cannot fail, or whose failure is ignored.
  abbrev pub change : A → (W → W) → Edit W A
  change a f s = (record s { world = f s.world }, ok a)

module _ {W A B : Type 0} where
  abbrev pub continue : Result A → (A → Edit W B) → Edit W B
  continue (ok a) f s = f a s
  continue (err e) f s = (s, err e)

  infixl 10 ◌>>=◌ ◌>>◌
  abbrev pub ◌>>=◌ : Edit W A → (A → Edit W B) → Edit W B
  ◌>>=◌ m f s = let (s', r) = m s in continue r f s'

  abbrev pub ◌>>◌ : Edit W A → Edit W B → Edit W B
  m >> n = m >>= λ _. n

module _ {W : Type 0} where
  -- A file operation with `?`.
  abbrev pub file_op : (W → W × Option Bytes) → Edit W (Unit {0})
  file_op f s = let (w, e) = f s.world in (record s { world = w }, checked e)

  -- `rep.note` and `rep.fail`
  abbrev pub note : Bytes → Edit W (Unit {0})
  note n s = (
    record s {
      report = record { notes = s.report.notes ++ (n ∷ []); failures = s.report.failures };
    },
    ok tt,
  )

  abbrev pub fail : (kind e : Bytes) → Edit W (Unit {0})
  fail kind e s = (
    record s {
      report = record { notes = s.report.notes; failures = s.report.failures ++ ((kind, e) ∷ []) };
    },
    ok tt,
  )

  -- `if let Err(e) = .. { rep.fail(kind, e) }`
  abbrev pub report_error :
      (kind : Bytes) → State W × Result (Unit {0}) → State W × Result (Unit {0})
  report_error kind (s, ok u) = (s, ok tt)
  report_error kind (s, err e) = fail kind e s

  abbrev pub reporting : (kind : Bytes) → Edit W (Unit {0}) → Edit W (Unit {0})
  reporting kind m s = report_error kind (m s)

  -- `let _ = ..`
  abbrev pub ignoring : Edit W (Unit {0}) → Edit W (Unit {0})
  ignoring m s = let (s', r) = m s in (s', ok tt)

  abbrev pub whenever : Bool → Edit W (Unit {0}) → Edit W (Unit {0})
  whenever true m = m
  whenever false m = pure tt

  -- `Ok(changed) => dirty |= changed && counts`, `Err(e) => rep.fail(kind, e)`
  abbrev pub changed_or :
      (kind : Bytes) → (dirty counts : Bool) → State W × Result Bool → State W × Result Bool
  changed_or kind dirty counts (s, ok changed) = (s, ok (dirty || (changed && counts)))
  changed_or kind dirty counts (s, err e) = let (s', r) = fail kind e s in (s', ok dirty)

module _ {W A : Type 0} where
  -- A loop over a list of the wiring.
  abbrev pub each : (A → Edit W (Unit {0})) → List A → Edit W (Unit {0})
  each f [] = pure tt
  each f (a ∷ rest) = f a >> each f rest

  -- The loop that collects whether anything changed.
  abbrev pub each_changed :
      (kind : Bytes) → (A → Bool) → (A → Edit W Bool) → (dirty : Bool) → List A → Edit W Bool
  each_changed kind counts f dirty [] = pure dirty
  each_changed kind counts f dirty (a ∷ rest) =
      (λ s. changed_or kind dirty (counts a) (f a s)) >>= λ d. each_changed kind counts f d rest
