-- ===== src/Downshift/Runtime.antt =====
-- internal/downshift/runtime.go: the active configuration, kept compiled between revisions.
use burnban.Prelude.{
  String, Bool, true, false, not, ◌&&◌, ◌||◌, Option, none, some, List, [], ◌∷◌, str_eq,
  if◌then◌else◌,
}
use burnban.Prelude.Int.{ℤ, pos, eqb_ℤ}
use burnban.Downshift.Config.{Compiled, Mode, observe, warn_then_downshift, other_mode}
pub mod Fresh

-- The columns of an active document that `Active` reads.
pub record DocumentRecord : Type 0 where
  pub id : ℤ
  pub api_version : String
  pub revision : ℤ
  pub digest : String
  pub mode : String
  pub document_json : String

-- What `ActiveDownshiftDocument` answers: an error, no document, or one.
pub data Answer : Type 0 where
  failed no_document : Answer
  document : DocumentRecord → Answer

-- What `Active` returns.
pub data Active : Type 0 where
  refused inactive : Active
  config : Compiled → Active

pub record Runtime : Type 0 where
  pub active : Option Compiled
  pub active_id : ℤ

abbrev pub new_runtime : Runtime
new_runtime = record { active = none; active_id = pos 0 }

abbrev pub mode_text : Mode → String
mode_text observe = "observe"
mode_text warn_then_downshift = "warn_then_downshift"
mode_text (other_mode m) = m

-- Whether the document's columns are those of its configuration.
unfoldable pub agrees : Compiled → DocumentRecord → Bool
agrees c r =
    str_eq c.digest r.digest
    && eqb_ℤ c.config.revision r.revision
    && str_eq (mode_text c.config.mode) r.mode
    && str_eq c.config.api_version r.api_version

-- The cached configuration, where it is the record's.
unfoldable pub cached : Runtime → DocumentRecord → Option Compiled
cached rt r = elim rt.active [
  | none ↦ none
  | some c ↦ if eqb_ℤ rt.active_id r.id && str_eq c.digest r.digest then some c else none
]

-- `parse` is the decoding, the validation and the digest of a document.
module _ (parse : String → Option Compiled) where
  unfoldable pub accept : DocumentRecord → Option Compiled
  unfolding agrees
  accept r = elim (parse r.document_json) [
    | none ↦ none
    | some c ↦ if agrees c r then some c else none
  ]

  unfoldable pub install : Runtime → DocumentRecord → Option Compiled → Runtime × Active
  install rt r none = (rt, refused)
  install rt r (some c) = (record { active = some c; active_id = r.id }, config c)

  unfoldable pub serve : Runtime → DocumentRecord → Option Compiled → Runtime × Active
  unfolding accept install
  serve rt r (some c) = (rt, config c)
  serve rt r none = install rt r (accept r)

  unfoldable pub active : Runtime → Answer → Runtime × Active
  unfolding serve cached
  active rt failed = (rt, refused)
  active rt no_document = (new_runtime, inactive)
  active rt (document r) = serve rt r (cached rt r)

  -- The results of a sequence of calls, as the store answers them.
  unfoldable pub run : Runtime → List Answer → List Active
  unfolding active
  run rt [] = []
  run rt (a ∷ rest) = (active rt a).1 ∷ run (active rt a).0 rest
