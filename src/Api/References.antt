-- ===== src/Api/References.antt =====
-- api/handlers.go: checkReference and checkJetID. The references of the platform are a parameter.
use block_explorer.Prelude.{
  ◌++◌, Bool, true, not, Option, none, some, List, [], ◌∷◌, Text, codes, ◌==◌, list_eq, nat_eq,
  if◌then◌else◌,
}
use block_explorer.Go.Spaces.{trim_space}
use block_explorer.Go.Url.{query_unescape}
use block_explorer.Models.JetDropId.{jet_id_regexp}
use block_explorer.Api.{
  Failure, Reason, empty_reference, error_unescaping, wrong_format, empty_value, cannot_unescape,
  does_not_match, failure_if,
}

-- insolar.Reference: NewReferenceFromString, IsObjectReference, String and `GetLocal().Bytes()`.
pub record References : Type 1 where
  pub Reference : Type 0
  pub new_reference_from_string : Text → Option Reference
  pub is_object_reference : Reference → Bool
  pub to_string : Reference → Text
  pub local_bytes : Reference → Text

pub data Checked (A : Type 0) : Type 0 where
  checked : A → Checked A
  wrong : Reason → Checked A

unfoldable pub check_reference : (refs : References) → Text → Checked refs.Reference
check_reference refs reference_row =
    let reference_string = trim_space reference_row in
    if reference_string == []
    then wrong empty_reference
    else elim (query_unescape reference_string) [
      | none ↦ wrong error_unescaping
      | some reference ↦ elim (refs.new_reference_from_string reference) [
        | none ↦ wrong wrong_format
        | some ref ↦ checked ref
      ]
    ]

-- `url.QueryUnescape` returns the empty string with its error.
abbrev or_empty_text : Option Text → Text
or_empty_text none = []
or_empty_text (some s) = s

abbrev unescape_failures : Option Text → List Failure
unescape_failures none = failure_if true cannot_unescape "jet-id path parameter"
unescape_failures (some s) = []

unfoldable pub check_jet_id : Text → Text × List Failure
check_jet_id jet_id =
    let value = trim_space jet_id in
    let unescaped = query_unescape value in
    let id = or_empty_text unescaped in
    let failures =
      failure_if (value == []) empty_value "jet-id path parameter"
      ++ unescape_failures unescaped
      ++ failure_if (not (jet_id_regexp id)) does_not_match "jet-id path parameter" in
    elim failures [ f ∷ rest ↦ ([], f ∷ rest) | [] ↦ (if id == codes "*" then [] else id, []) ]
