-- ===== src/Sokel/Files/Upload.antt =====
-- The frames of `storeReader` in sokel/file.go.
use sokel_plugin_sdk.Base.{
  ℕ, zero, suc, ◌+◌, ◌≤◌, ◌<◌, Text, true, false, Option, none, some, List, [], ◌∷◌, ◌++◌,
  append-nil, Result, ok, err, leb, is_empty, length, ◌≡◌, ◌≢◌, refl, sym, ap, ◌∙◌, ◌⊎◌, inl, inr,
  arith, Bool-cases, Option-cases, eq_of_some,
}
use sokel_plugin_sdk.Sokel.Errors.{GoError}
use mathlib.Core.Path.{subst}
use sokel_plugin_sdk.Sokel.Files.{
  Stop, end_of_file, unexpected_end, broken, FileRef, PutFrame, PutReply, Answer, ChunkError,
  Reader, take_bytes, drop_bytes, failed_read, read_bytes, read_full, Transfer, Stored, file_chunk,
  conclude, after_frame, request_file_chunk, send, finished_with, put_frame, next_id, store_loop,
  store_reader,
}

take-append-drop : (n : ℕ) (s : Text) → take_bytes n s ++ drop_bytes n s ≡ s
unfolding take_bytes drop_bytes
take-append-drop zero s = refl
take-append-drop (suc n) [] = refl
take-append-drop (suc n) (b ∷ s) = ap (λ t. b ∷ t) (take-append-drop n s)

take-not_empty : (n : ℕ) (s : Text) → 1 ≤ n → n ≤ length s → is_empty (take_bytes n s) ≡ false
unfolding take_bytes
take-not_empty zero s pos fits = absurd (omega arith)
take-not_empty (suc n) [] pos fits = absurd (omega arith)
take-not_empty (suc n) (b ∷ s) pos fits = refl

length-drop : (n : ℕ) (s : Text) → n ≤ length s → length (drop_bytes n s) + n ≡ length s
unfolding drop_bytes
length-drop zero s fits = omega arith
length-drop (suc n) [] fits = absurd (omega arith)
length-drop (suc n) (b ∷ s) fits = omega (arith, length-drop n s)

-- The code takes the end of the reader for the end of its content.
abbrev pub IsEnd : Stop → Type 0
IsEnd end_of_file = Unit
IsEnd unexpected_end = Unit
IsEnd (broken e) = ⊥

-- A read that fills the buffer.
abbrev Fills : ℕ → Reader → Type 0
Fills chunk r =
    (bytes : Text) × (rest : Reader) × (read_full chunk r ≡ read_bytes bytes false rest)
    × (is_empty bytes ≡ false)
    × (bytes ++ rest.content ≡ r.content)
    × (rest.stop ≡ r.stop)
    × (length rest.content < length r.content)

-- A read that meets the end.
abbrev Ends : ℕ → Reader → Type 0
Ends chunk r = (rest : Reader) × (read_full chunk r ≡ read_bytes r.content true rest) × IsEnd r.stop

abbrev Fails : ℕ → Reader → Type 0
Fails chunk r = (e : GoError) × (read_full chunk r ≡ failed_read e)

short_read :
    (chunk : ℕ) (content : Text) (stop : Stop)
    → leb chunk (length content) ≡ false
    → Ends chunk (record { content = content; stop = stop })
      ⊎ Fails chunk (record { content = content; stop = stop })
unfolding read_full
short_read chunk content end_of_file short =
    inl (record { content = []; stop = end_of_file }, rw (short, read_full), tt)
short_read chunk content unexpected_end short =
    inl (record { content = []; stop = unexpected_end }, rw (short, read_full), tt)
short_read chunk content (broken e) short = inr (e, rw (short, read_full))

read_full-cases :
    (chunk : ℕ) (r : Reader) → 1 ≤ chunk → Fills chunk r ⊎ (Ends chunk r ⊎ Fails chunk r)
unfolding read_full
read_full-cases chunk r pos = elim (Bool-cases (leb chunk (length r.content))) [
  | inl fits ↦ inl (
    take_bytes chunk r.content,
    record r { content = drop_bytes chunk r.content },
    rw (fits, read_full),
    take-not_empty chunk r.content pos (ground arith),
    take-append-drop chunk r.content,
    refl,
    omega (arith, length-drop chunk r.content (ground arith)),
  )
  | inr short ↦ inr (short_read chunk r.content r.stop short)
]

-- The bytes of the frames, put together.
abbrev pub content_of : List PutFrame → Text
content_of [] = []
content_of (f ∷ fs) = f.bytes ++ content_of fs

-- The frames are numbered from `n` on, and the last one, and no other, is marked as the last.
abbrev pub IsSequence : ℕ → List PutFrame → Type 0
IsSequence n [] = ⊥
IsSequence n (f ∷ []) = (f.seq ≡ n) × (f.last ≡ true)
IsSequence n (f ∷ g ∷ fs) = (f.seq ≡ n) × (f.last ≡ false) × IsSequence (suc n) (g ∷ fs)

abbrev pub Delivers : ℕ → Reader → List PutFrame → Type 0
Delivers n r fs = IsEnd r.stop × (content_of fs ≡ r.content) × IsSequence n fs

IsSequence-first :
    (n : ℕ) (f : PutFrame) (fs : List PutFrame)
    → f.seq ≡ n
    → f.last ≡ false
    → IsSequence (suc n) fs
    → IsSequence n (f ∷ fs)
IsSequence-first n f [] number more rest = absurd rest
IsSequence-first n f (g ∷ fs) number more rest = (number, more, rest)

module _ {S : Type 0} (violation : S → Text) (serve : S → PutFrame → S × Answer PutReply) where
  -- A round whose upload succeeds got a reply, and went on.
  conclude_ok :
      (s : S) (seq : ℕ) (f : PutFrame) (a : Result ChunkError (Result Text PutReply))
      (continue : PutReply → Option (Stored S)) (t : Stored S) (file : FileRef)
      → conclude violation serve s seq f a continue ≡ some t
      → t.result ≡ ok file
      → (reply : PutReply) × (t' : Stored S) × (continue reply ≡ some t')
        × (t'.result ≡ ok file)
        × (t.answered ≡ f ∷ t'.answered)
  unfolding conclude
  conclude_ok s seq f (err e) continue t file h fine =
      let same_result = ap (λ (x : Stored S). x.result) (eq_of_some h) in absurd (ground arith)
  conclude_ok s seq f (ok (err e)) continue t file h fine =
      let same_result = ap (λ (x : Stored S). x.result) (eq_of_some h) in absurd (ground arith)
  conclude_ok s seq f (ok (ok reply)) continue t file h fine =
      elim (Bool-cases (is_empty reply.error)) [
        | inr bad ↦
            let same_result = ap (λ (x : Stored S). x.result) (eq_of_some (rw bad at h)) in
            absurd (ground arith)
        | inl good ↦ elim (Option-cases (continue reply)) [
          | inl out ↦ absurd (ground arith)
          | inr (t', went) ↦
              let e : some (after_frame violation serve f t') ≡ some t = rw (good, went) at h in
              (
                reply,
                t',
                went,
                ap (λ (x : Stored S). x.result) (eq_of_some e) ∙ fine,
                sym (ap (λ (x : Stored S). x.answered) (eq_of_some e)),
              )
        ]
      ]

  send_ok :
      (s : S) (seq : ℕ) (f : PutFrame) (continue : S → PutReply → Option (Stored S)) (t : Stored S)
      (file : FileRef)
      → send violation serve s seq f continue ≡ some t
      → t.result ≡ ok file
      → (s' : S) × (reply : PutReply) × (t' : Stored S) × (continue s' reply ≡ some t')
        × (t'.result ≡ ok file)
        × (t.answered ≡ f ∷ t'.answered)
  unfolding send
  send_ok s seq f continue t file h fine =
      let (s', a) = request_file_chunk violation serve s f in
      let (reply, t', went, fine', first) = conclude_ok s' seq f a (continue s') t file h fine in
      (s', reply, t', went, fine', first)

  store_loop-Delivers :
      (chunk fuel : ℕ) (u : Transfer) (id : Text) (seq : ℕ) (r : Reader) (s : S) (t : Stored S)
      (file : FileRef)
      → 1 ≤ chunk
      → store_loop violation serve chunk fuel u id seq r s ≡ some t
      → t.result ≡ ok file
      → Delivers seq r t.answered
  unfolding store_loop put_frame
  store_loop-Delivers chunk zero u id seq r s t file pos h fine = absurd (ground arith)
  store_loop-Delivers chunk (suc fuel) u id seq r s t file pos h fine =
      elim (read_full-cases chunk r pos) [
        | inl ([], rest, read, some_bytes, _, _, _) ↦ absurd (ground arith)
        | inl (b ∷ bs, rest, read, some_bytes, split, fails, shorter) ↦
            let f = put_frame violation serve u id seq false (b ∷ bs) in
            let on = λ (s' : S) (reply : PutReply).
              store_loop violation serve chunk fuel u (next_id violation serve id reply.upload_id)
                (suc seq) rest s' in
            let sent : send violation serve s seq f on ≡ some t = rw (read, store_loop) at h in
            let (s', reply, t', went, fine', first) = send_ok s seq f on t file sent fine in
            let (fine_reader, content, numbered) =
              store_loop-Delivers chunk fuel u _ (suc seq) rest s' t' file pos went fine' in
            (
              subst IsEnd fails fine_reader,
              rw (first, content) split,
              rw first (IsSequence-first seq f t'.answered refl refl numbered),
            )
        | inr (inl (rest, read, fine_reader)) ↦
            let f = put_frame violation serve u id seq true r.content in
            let on = λ (s' : S) (reply : PutReply). some (finished_with violation serve s' reply) in
            let sent : send violation serve s seq f on ≡ some t = rw (read, store_loop) at h in
            let (s', reply, t', went, fine', first) = send_ok s seq f on t file sent fine in
            let all_sent : t'.answered ≡ [] =
              sym (ap (λ (x : Stored S). x.answered) (eq_of_some went)) in
            (
              fine_reader,
              rw (first, all_sent) (append-nil r.content),
              rw (first, all_sent) (refl, refl),
            )
        | inr (inr (e, read)) ↦
            let same_result =
              ap (λ (x : Stored S). x.result) (eq_of_some (rw (read, store_loop) at h)) in
            absurd (ground arith)
      ]

  -- An upload that succeeds has sent, whatever the platform answered in between, all that the reader
  -- gave before it stopped with `io.EOF` or `io.ErrUnexpectedEOF`, and no reader that stops with
  -- another error is uploaded: the frames that were answered, one for each chunk, hold the content
  -- in order, are numbered from 0 on, and only the last of them is marked as the last.
  pub store_reader-Delivers :
      (fuel : ℕ) (u : Transfer) (r : Reader) (s : S) (t : Stored S) (file : FileRef)
      → store_reader violation serve fuel u r s ≡ some t
      → t.result ≡ ok file
      → Delivers 0 r t.answered
  unfolding store_reader
  store_reader-Delivers fuel u r s t file h fine =
      store_loop-Delivers file_chunk fuel u [] 0 r s t file (omega arith) h fine

  conclude_total :
      (s : S) (seq : ℕ) (f : PutFrame) (a : Result ChunkError (Result Text PutReply))
      (continue : PutReply → Option (Stored S))
      → ((reply : PutReply) → continue reply ≢ none)
      → conclude violation serve s seq f a continue ≢ none
  unfolding conclude
  conclude_total s seq f (err e) continue rest h = cc
  conclude_total s seq f (ok (err e)) continue rest h = cc
  conclude_total s seq f (ok (ok reply)) continue rest h = elim (Option-cases (continue reply)) [
    | inl out ↦ rest reply out
    | inr (t, went) ↦ ground arith
  ]

  send_total :
      (s : S) (seq : ℕ) (f : PutFrame) (continue : S → PutReply → Option (Stored S))
      → ((s' : S) (reply : PutReply) → continue s' reply ≢ none)
      → send violation serve s seq f continue ≢ none
  unfolding send
  send_total s seq f continue rest =
      let (s', a) = request_file_chunk violation serve s f in
      conclude_total s' seq f a (continue s') (rest s')

  store_loop_total :
      (chunk fuel : ℕ) (u : Transfer) (id : Text) (seq : ℕ) (r : Reader) (s : S)
      → 1 ≤ chunk
      → length r.content < fuel
      → store_loop violation serve chunk fuel u id seq r s ≢ none
  unfolding store_loop
  store_loop_total chunk zero u id seq r s pos enough = absurd (omega arith)
  store_loop_total chunk (suc fuel) u id seq r s pos enough = elim (read_full-cases chunk r pos) [
    | inl ([], rest, read, some_bytes, _, _, _) ↦ absurd (ground arith)
    | inl (b ∷ bs, rest, read, some_bytes, _, _, shorter) ↦
        rw (read, store_loop)
          (send_total s seq (put_frame violation serve u id seq false (b ∷ bs)) _ (λ s' reply.
            store_loop_total chunk fuel u (next_id violation serve id reply.upload_id) (suc seq)
              rest s' pos (omega (arith, shorter))))
    | inr (inl (rest, read, _)) ↦
        rw (read, store_loop)
          (send_total s seq (put_frame violation serve u id seq true r.content)
            (λ s' reply. some (finished_with violation serve s' reply)) (λ s' reply e. cc))
    | inr (inr (e, read)) ↦ rw (read, store_loop) (λ h. cc)
  ]

  -- An upload ends, with a result or an error, given more fuel than the content has bytes.
  pub store_reader_total :
      (fuel : ℕ) (u : Transfer) (r : Reader) (s : S)
      → length r.content < fuel
      → store_reader violation serve fuel u r s ≢ none
  unfolding store_reader
  store_reader_total fuel u r s enough =
      store_loop_total file_chunk fuel u [] 0 r s (omega arith) enough
