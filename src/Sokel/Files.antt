-- ===== src/Sokel/Files.antt =====
-- sokel/file.go and `explainTimeout` of sokel/transport_nats.go: files travel in chunks, one request
-- for each. The platform is any state machine that answers frames.
pub mod Get
pub mod Upload
pub mod Download
pub mod Truncated
use sokel_plugin_sdk.Base.{
  ℕ, zero, suc, ◌+◌, ◌*◌, ◌^◌, Text, codes, Bool, true, false, ◌&&◌, ◌||◌, not, Option, none, some,
  List, [], ◌∷◌, ◌++◌, Result, ok, err, ltb, leb, ◌==◌, is_empty, length, if◌then◌else◌,
}
use sokel_plugin_sdk.Sokel.Errors.{GoError}

-- `plugin.File`
pub record FileRef : Type 0 where
  pub id : Text
  pub url : Text
  pub name : Text
  pub mime : Text
  pub size : ℕ
  pub inline : Text

-- The errors of a request that the code tells apart; the last is a wrap by `explainTimeout`.
pub data RequestError : Type 0 where
  no_responders : RequestError
  timeout : RequestError
  other_error : Text → RequestError
  explained : RequestError → Text → RequestError

-- `errors.Is(err, nats.ErrTimeout)`
is_timeout : RequestError → Bool
is_timeout timeout = true
is_timeout (explained e violation) = is_timeout e
is_timeout _ = false

-- `errors.Is(err, nats.ErrNoResponders)`
unfoldable pub is_no_responders : RequestError → Bool
is_no_responders no_responders = true
is_no_responders (explained e violation) = is_no_responders e
is_no_responders _ = false

unfoldable pub explain_timeout : RequestError → Text → RequestError
unfolding is_timeout
explain_timeout e violation =
    if is_empty violation || not (is_timeout e) then e else explained e violation

abbrev pub file_chunk : ℕ
file_chunk = 1048576

abbrev file_put_attempts : ℕ
file_put_attempts = 4

-- A frame of an upload; `bytes` is `data`, which goes as base64.
pub record PutFrame : Type 0 where
  pub token : Text
  pub upload_id : Text
  pub name : Text
  pub mime : Text
  pub seq : ℕ
  pub last : Bool
  pub bytes : Text
  pub ticket : Text

pub record PutReply : Type 0 where
  pub error : Text
  pub upload_id : Text
  pub file : Option FileRef

-- A request fails, or its answer is no JSON, or it is a reply.
abbrev pub Answer : Type 0 → Type 0
Answer R = Result RequestError (Result Text R)

pub data ChunkError : Type 0 where
  at_once : RequestError → ChunkError
  after_attempts : ℕ → Option RequestError → ChunkError

pub data StoreError : Type 0 where
  reading_chunk : ℕ → GoError → StoreError
  uploading_chunk : ℕ → ChunkError → StoreError
  bad_reply : Text → StoreError
  refused_by_platform : Text → StoreError
  no_file_reference : StoreError

-- How a reader ends: with `io.EOF`, with `io.ErrUnexpectedEOF`, as the body of a response does that
-- breaks off, or with another error.
pub data Stop : Type 0 where
  end_of_file : Stop
  unexpected_end : Stop
  broken : GoError → Stop

-- A reader gives its content, and then stops.
pub record Reader : Type 0 where
  pub content : Text
  pub stop : Stop

unfoldable pub take_bytes : ℕ → Text → Text
take_bytes zero s = []
take_bytes (suc n) [] = []
take_bytes (suc n) (b ∷ s) = b ∷ take_bytes n s

unfoldable pub drop_bytes : ℕ → Text → Text
drop_bytes zero s = s
drop_bytes (suc n) [] = []
drop_bytes (suc n) (b ∷ s) = drop_bytes n s

-- `io.ReadFull` fails, or gives bytes, tells whether the input ended before the buffer was full, and
-- leaves a reader. Both ends of the input count as such, since the code tests for both.
pub data Read : Type 0 where
  failed_read : GoError → Read
  read_bytes : Text → Bool → Reader → Read

-- For a buffer that is not empty.
unfoldable pub read_full : ℕ → Reader → Read
unfolding take_bytes drop_bytes
read_full chunk r =
    if leb chunk (length r.content)
    then read_bytes (take_bytes chunk r.content) false
        (record r { content = drop_bytes chunk r.content })
    else elim r.stop [
      | broken e ↦ failed_read e
      | _ ↦ read_bytes r.content true (record r { content = [] })
    ]

pub record Transfer : Type 0 where
  pub token : Text
  pub name : Text
  pub mime : Text
  pub ticket : Text

-- What an upload leaves: the platform's state, the frames that got an answer, and the result.
pub record Stored (S : Type 0) : Type 0 where
  pub state : S
  pub answered : List PutFrame
  pub result : Result StoreError FileRef

module _ {S : Type 0} (violation : S → Text) (serve : S → PutFrame → S × Answer PutReply) where
  -- `natsFiles.request`
  unfoldable pub request : S → PutFrame → S × Answer PutReply
  unfolding explain_timeout
  request s f =
      let (s', a) = serve s f in
      elim a [ err e ↦ (s', err (explain_timeout e (violation s'))) | ok r ↦ (s', ok r) ]

  -- The loop of `requestFileChunk`, with the attempts left and the last error.
  unfoldable pub attempts :
      ℕ → Option RequestError → S → PutFrame → S × Result ChunkError (Result Text PutReply)
  unfolding request
  attempts zero last_error s f = (s, err (after_attempts file_put_attempts last_error))
  attempts (suc n) last_error s f =
      let (s', a) = request s f in
      elim a [
        | ok r ↦ (s', ok r)
        | err e ↦ elim (is_no_responders e) [
          | false ↦ (s', err (at_once e))
          | true ↦ attempts n (some e) s' f
        ]
      ]

  unfoldable pub request_file_chunk : S → PutFrame → S × Result ChunkError (Result Text PutReply)
  unfolding attempts
  request_file_chunk s f = attempts file_put_attempts none s f

  unfoldable pub put_frame : Transfer → Text → ℕ → Bool → Text → PutFrame
  put_frame u upload_id seq last bytes = record {
    token = u.token;
    upload_id = upload_id;
    name = u.name;
    mime = u.mime;
    seq = seq;
    last = last;
    bytes = bytes;
    ticket = u.ticket;
  }

  stopped_with : S → StoreError → Stored S
  stopped_with s e = record { state = s; answered = []; result = err e }

  -- The end of the last round.
  finished_with : S → PutReply → Stored S
  finished_with s r = record {
    state = s;
    answered = [];
    result = elim r.file [ none ↦ err no_file_reference | some f ↦ ok f ];
  }

  after_frame : PutFrame → Stored S → Stored S
  after_frame f t = record t { answered = f ∷ t.answered }

  next_id : Text → Text → Text
  next_id old given = if is_empty given then old else given

  -- What a round does with the answer to its frame, where `continue` is the rest of the loop.
  conclude :
      S
      → ℕ
      → PutFrame
      → Result ChunkError (Result Text PutReply)
      → (PutReply → Option (Stored S))
      → Option (Stored S)
  unfolding stopped_with after_frame
  conclude s seq f (err e) continue = some (stopped_with s (uploading_chunk seq e))
  conclude s seq f (ok (err t)) continue = some (after_frame f (stopped_with s (bad_reply t)))
  conclude s seq f (ok (ok r)) continue =
      if not (is_empty r.error)
      then some (after_frame f (stopped_with s (refused_by_platform r.error)))
      else elim (continue r) [ none ↦ none | some t ↦ some (after_frame f t) ]

  -- A round of the loop of `storeReader` from the request on, where `continue` is what follows.
  send : S → ℕ → PutFrame → (S → PutReply → Option (Stored S)) → Option (Stored S)
  unfolding request_file_chunk conclude
  send s seq f continue = let (s', a) = request_file_chunk s f in conclude s' seq f a (continue s')

  -- The loop of `storeReader`; `none` means that the fuel ran out.
  unfoldable pub store_loop : ℕ → ℕ → Transfer → Text → ℕ → Reader → S → Option (Stored S)
  unfolding read_full put_frame stopped_with finished_with next_id send
  store_loop chunk zero u upload_id seq r s = none
  store_loop chunk (suc fuel) u upload_id seq r s = elim (read_full chunk r) [
    | failed_read e ↦ some (stopped_with s (reading_chunk seq e))
    | read_bytes bytes at_end rest ↦
        let last = at_end || (is_empty bytes && ltb 0 seq) in
        send s seq (put_frame u upload_id seq last bytes) (λ s' reply. elim last [
          | true ↦ some (finished_with s' reply)
          | false ↦ store_loop chunk fuel u (next_id upload_id reply.upload_id) (suc seq) rest s'
        ])
  ]

  unfoldable pub store_reader : ℕ → Transfer → Reader → S → Option (Stored S)
  unfolding store_loop
  store_reader fuel u r s = store_loop file_chunk fuel u [] 0 r s

  -- `bytes.NewReader`, then `storeReader`.
  unfoldable pub store : ℕ → Transfer → Text → S → Option (Stored S)
  unfolding store_reader
  store fuel u bytes s = store_reader fuel u (record { content = bytes; stop = end_of_file }) s
