-- ===== src/Sokel/Files/Download.antt =====
-- `fetch` of sokel/file.go after `storeReader`.
use sokel_plugin_sdk.Base.{
  ℕ, zero, suc, ◌≤◌, Text, some, List, [], ◌∷◌, ◌++◌, append_assoc, append-nil, ok, is_empty_of_ne,
  length, ◌≡◌, ◌≢◌, ap, ◌∙◌, arith,
}
use sokel_plugin_sdk.Sokel.Files.{
  FileRef, PutFrame, PutReply, Answer, Reader, Transfer, Stored, store_reader,
}
use sokel_plugin_sdk.Sokel.Files.Get.{
  GetFrame, GetReply, file_id, fetch_chunk, get_frame, fetch_loop, fetch_file,
}
use sokel_plugin_sdk.Sokel.Files.Upload.{content_of, IsSequence, store_reader-Delivers}

module _ (answer : GetFrame → Answer GetReply) (token ticket : Text) where
  -- The platform answers request `n` and the next ones by the bytes of the frames, and marks the
  -- frame that is marked.
  abbrev pub Serves : Text → ℕ → List PutFrame → Type 0
  Serves id n [] = Unit
  Serves id n (f ∷ fs) =
      (fetch_chunk n (answer (get_frame answer token ticket id n)) ≡ ok (f.bytes, f.last))
      × Serves id (suc n) fs

  fetch_loop-content_of :
      (fuel : ℕ) (id : Text) (n : ℕ) (out : Text) (fs : List PutFrame)
      → IsSequence n fs
      → Serves id n fs
      → length fs ≤ fuel
      → fetch_loop answer token ticket fuel id n out ≡ some (ok (out ++ content_of fs))
  unfolding fetch_loop
  fetch_loop-content_of fuel id n out [] numbered served enough = absurd numbered
  fetch_loop-content_of zero id n out (f ∷ fs) numbered served enough = absurd (omega arith)
  fetch_loop-content_of (suc fuel) id n out (f ∷ []) (_, last) (served, _) enough =
      rw (served, last, fetch_loop, append-nil f.bytes)
  fetch_loop-content_of (suc fuel) id n out (f ∷ g ∷ fs) (_, more, numbered) (served, rest) enough =
      rw (served, more, fetch_loop)
        (fetch_loop-content_of fuel id (suc n) (out ++ f.bytes) (g ∷ fs) numbered rest (omega arith)
          ∙ ap (λ t. some (ok t)) (append_assoc out f.bytes (content_of (g ∷ fs))))

  -- Where an upload succeeded, and the platform then serves the frames that it answered under the id
  -- of the file, a download of the file gives the content of the uploaded reader, with fuel for as
  -- many rounds as frames.
  pub fetch_file-store_reader :
      {S : Type 0} (violation : S → Text) (serve : S → PutFrame → S × Answer PutReply)
      (fuel fuel' : ℕ) (u : Transfer) (r : Reader) (s : S) (t : Stored S) (file : FileRef)
      → store_reader violation serve fuel u r s ≡ some t
      → t.result ≡ ok file
      → file_id file ≢ []
      → Serves (file_id file) 0 t.answered
      → length t.answered ≤ fuel'
      → fetch_file answer token ticket fuel' file ≡ some (ok r.content)
  unfolding fetch_file
  fetch_file-store_reader violation serve fuel fuel' u r s t file h fine id served enough =
      let (_, content, numbered) = store_reader-Delivers violation serve fuel u r s t file h fine in
      rw (is_empty_of_ne (file_id file) id) (
        fetch_loop-content_of fuel' (file_id file) 0 [] t.answered numbered served enough
        ∙ ap (λ x. some (ok x)) content)
