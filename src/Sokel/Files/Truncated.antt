-- ===== src/Sokel/Files/Truncated.antt =====
-- `storeReader` of sokel/file.go on a reader that breaks off.
use sokel_plugin_sdk.Base.{
  ℕ, zero, suc, Text, true, false, ◌&&◌, ◌||◌, Option, some, leb, ltb, length, is_empty, ◌≡◌, refl,
  ap, inl, inr, Bool-cases, [],
}
use sokel_plugin_sdk.Sokel.Files.{
  PutFrame, PutReply, Answer, Reader, Stop, end_of_file, unexpected_end, take_bytes, drop_bytes,
  read_full, Transfer, Stored, file_chunk, send, put_frame, finished_with, next_id, store_loop,
  store_reader,
}

-- A reader of the same content, with another end
abbrev ends_with : Text → Stop → Reader
ends_with content stop = record { content = content; stop = stop }

module _ {S : Type 0} (violation : S → Text) (serve : S → PutFrame → S × Answer PutReply) where
  store_loop_truncated :
      (chunk fuel : ℕ) (u : Transfer) (id : Text) (seq : ℕ) (content : Text) (s : S)
      → store_loop violation serve chunk fuel u id seq (ends_with content unexpected_end) s
        ≡ store_loop violation serve chunk fuel u id seq (ends_with content end_of_file) s
  unfolding store_loop read_full
  store_loop_truncated chunk zero u id seq content s = refl
  store_loop_truncated chunk (suc fuel) u id seq content s =
      elim (Bool-cases (leb chunk (length content))) [
        | inr short ↦ rw (short, read_full, store_loop) refl
        | inl fits ↦
            rw (fits, read_full, store_loop)
              (let bytes = take_bytes chunk content in
                let last = false || (is_empty bytes && ltb 0 seq) in
                ap
                  (λ (go : Text → S → Option (Stored S)).
                    send violation serve s seq (put_frame violation serve u id seq last bytes)
                      (λ s' reply. elim last [
                        | true ↦ some (finished_with violation serve s' reply)
                        | false ↦ go (next_id violation serve id reply.upload_id) s'
                      ]))
                  (λ i id' s'.
                    store_loop_truncated chunk fuel u id' (suc seq) (drop_bytes chunk content) s'
                      i))
      ]

  -- An upload from a reader that breaks off with `io.ErrUnexpectedEOF` goes as the upload of a
  -- complete file with the content read so far: the same frames, the same state of the platform and
  -- the same result.
  pub store_reader_truncated :
      (fuel : ℕ) (u : Transfer) (content : Text) (s : S)
      → store_reader violation serve fuel u (record { content = content; stop = unexpected_end }) s
        ≡ store_reader violation serve fuel u (record { content = content; stop = end_of_file }) s
  unfolding store_reader
  store_reader_truncated fuel u content s = store_loop_truncated file_chunk fuel u [] 0 content s
