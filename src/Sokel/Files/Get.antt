-- ===== src/Sokel/Files/Get.antt =====
-- `fetch` of sokel/file.go: the download of a file.
use sokel_plugin_sdk.Base.{
  ℕ, zero, suc, Text, Bool, true, false, not, Option, none, some, [], ◌∷◌, ◌++◌, Result, ok, err,
  ◌==◌, is_empty, if◌then◌else◌,
}
use sokel_plugin_sdk.Sokel.Files.{FileRef, RequestError, Answer}

-- A request of a download.
pub record GetFrame : Type 0 where
  pub token : Text
  pub id : Text
  pub seq : ℕ
  pub ticket : Text

-- `data` as base64, with the outcome of its decoding.
pub record GetReply : Type 0 where
  pub error : Text
  pub decoded : Result Text Text
  pub last : Bool

pub data FetchError : Type 0 where
  no_reference : FetchError
  fetching_chunk : ℕ → RequestError → FetchError
  unreadable : Text → FetchError
  refused_fetch : Text → FetchError

-- The part behind the last `/`, if there is one.
unfoldable last_segment : Text → Option Text
last_segment [] = none
last_segment (b ∷ s) = elim (last_segment s) [
  | some t ↦ some t
  | none ↦ if b == b'/' then some s else none
]

unfoldable pub file_id : FileRef → Text
unfolding last_segment
file_id f =
    if not (is_empty f.id) then f.id else elim (last_segment f.url) [ none ↦ [] | some t ↦ t ]

-- One round of the loop of `fetch`: the bytes, and whether they are the last.
unfoldable pub fetch_chunk : ℕ → Answer GetReply → Result FetchError (Text × Bool)
fetch_chunk seq (err e) = err (fetching_chunk seq e)
fetch_chunk seq (ok (err t)) = err (unreadable t)
fetch_chunk seq (ok (ok r)) =
    if not (is_empty r.error)
    then err (refused_fetch r.error)
    else elim r.decoded [ err t ↦ err (unreadable t) | ok bytes ↦ ok (bytes, r.last) ]

module _ (answer : GetFrame → Answer GetReply) (token ticket : Text) where
  abbrev pub get_frame : Text → ℕ → GetFrame
  get_frame id seq = record { token = token; id = id; seq = seq; ticket = ticket }

  -- The loop; `none` means that the fuel ran out.
  unfoldable pub fetch_loop : ℕ → Text → ℕ → Text → Option (Result FetchError Text)
  unfolding fetch_chunk
  fetch_loop zero id seq out = none
  fetch_loop (suc fuel) id seq out = elim (fetch_chunk seq (answer (get_frame id seq))) [
    | err e ↦ some (err e)
    | ok (bytes, last) ↦ elim last [
      | true ↦ some (ok (out ++ bytes))
      | false ↦ fetch_loop fuel id (suc seq) (out ++ bytes)
    ]
  ]

  -- `fetch`, where `answer` includes the explanation of a timeout.
  unfoldable pub fetch_file : ℕ → FileRef → Option (Result FetchError Text)
  unfolding fetch_loop file_id
  fetch_file fuel f =
      if is_empty (file_id f) then some (err no_reference) else fetch_loop fuel (file_id f) 0 []
