-- ===== src/Tests/RuntimeTests.antt =====
-- Files, declarations of events, and concurrent calls.
use mathlib.Core.Option
use sokel_plugin_sdk.Base.{
  ℕ, zero, suc, ◌≤◌, Text, codes, true, none, some, [], ◌∷◌, length, ok, err, value, ◌≡◌, ◌≢◌, ◌⊎◌,
  refl, arith, pos,
}
use sokel_plugin_sdk.Sokel.Files.{
  FileRef, no_responders, is_no_responders, PutFrame, PutReply, Answer, Reader, end_of_file,
  unexpected_end, Transfer, Stored, store_reader,
}
use sokel_plugin_sdk.Sokel.Files.Truncated.{store_reader_truncated}
use sokel_plugin_sdk.Sokel.Files.Get.{GetFrame, GetReply, file_id, fetch_chunk, fetch_file}
use sokel_plugin_sdk.Sokel.Files.Upload.{Delivers, store_reader-Delivers, store_reader_total}
use sokel_plugin_sdk.Sokel.Files.Download.{Serves, fetch_file-store_reader}
use sokel_plugin_sdk.Contract.Events.{Event, validate_common_fields}
use sokel_plugin_sdk.Contract.Field.{Field, plain, blank, t_string}
use sokel_plugin_sdk.Sokel.Plugin.{Plugin, new_plugin}
use sokel_plugin_sdk.Sokel.Declared.{declare_events_common}
use sokel_plugin_sdk.Sokel.Declared.Agreement.{declare_events_common-validate}
use sokel_plugin_sdk.Sokel.Workers.{semaphore_of, Pool, Step, start_capped, Reach, at_start, after}
use sokel_plugin_sdk.Sokel.Workers.Limits.{IsIdle, Reach-limit, Reach-progress}

abbrev report_file : FileRef
report_file = record {
  id = codes "f_1";
  url = [];
  name = codes "r.txt";
  mime = codes "text/plain";
  size = 2;
  inline = [];
}

abbrev accepted_frame : PutReply
accepted_frame = record { error = []; upload_id = codes "u_1"; file = some report_file }

-- A platform that is restarting at the first request. The state counts the requests.
abbrev restarting : ℕ → PutFrame → ℕ × Answer PutReply
restarting zero f = (1, err no_responders)
restarting (suc n) f = (suc (suc n), ok (ok accepted_frame))

abbrev quiet : ℕ → Text
quiet n = []

abbrev transfer : Transfer
transfer = record {
  token = codes "skp";
  name = codes "r.txt";
  mime = codes "text/plain";
  ticket = codes "t";
}

abbrev hi : Reader
hi = record { content = codes "hi"; stop = end_of_file }

abbrev put_hi : PutFrame
put_hi = record {
  token = codes "skp";
  upload_id = [];
  name = codes "r.txt";
  mime = codes "text/plain";
  seq = 0;
  last = true;
  bytes = codes "hi";
  ticket = codes "t";
}

abbrev stored_hi : Stored ℕ
stored_hi = record { state = 2; answered = put_hi ∷ []; result = ok report_file }

stored : store_reader quiet restarting 5 transfer hi 0 ≡ some stored_hi
unfolding store_reader is_no_responders
stored = refl

store_reader-Delivers_example : Delivers 0 hi (put_hi ∷ [])
store_reader-Delivers_example =
    store_reader-Delivers quiet restarting 5 transfer hi 0 stored_hi report_file stored refl

store_reader_total_example : store_reader quiet restarting 5 transfer hi 0 ≢ none
store_reader_total_example = store_reader_total quiet restarting 5 transfer hi 0 (omega arith)

store_reader_truncated_example :
    store_reader quiet restarting 5 transfer
      (record { content = codes "hi"; stop = unexpected_end })
      0
    ≡ store_reader quiet restarting 5 transfer hi 0
store_reader_truncated_example = store_reader_truncated quiet restarting 5 transfer (codes "hi") 0

abbrev serving : GetFrame → Answer GetReply
serving f = ok (ok (record { error = []; decoded = ok (codes "hi"); last = true }))

report_id_given : file_id report_file ≢ []
unfolding file_id
report_id_given = λ e. cc

served_file : Serves serving (codes "skp") (codes "t") (file_id report_file) 0 (put_hi ∷ [])
unfolding fetch_chunk
served_file = (refl, tt)

fetch_file-store_reader_example :
    fetch_file serving (codes "skp") (codes "t") 3 report_file ≡ some (ok (codes "hi"))
fetch_file-store_reader_example =
    fetch_file-store_reader serving (codes "skp") (codes "t") quiet restarting 5 3 transfer hi 0
      stored_hi report_file stored refl report_id_given served_file (omega arith)

abbrev chat : Field
chat = plain (record blank { name = codes "chat_id"; param_type = t_string })

abbrev message_event : Event
message_event = record { id = codes "message"; label = []; desc = []; fields = chat ∷ [] }

abbrev bot : Plugin
bot = record (new_plugin (record { endpoint = []; token = []; name = codes "bot" })) {
  events = message_event ∷ [];
}

declare_events_common-validate_example :
    value (declare_events_common bot (codes "chat_id" ∷ []))
    ≡ Option.map
        (λ fs. record bot { events_common = fs })
        (value (validate_common_fields bot.events (codes "chat_id" ∷ [])))
declare_events_common-validate_example =
    declare_events_common-validate bot (codes "chat_id" ∷ []) (λ e. cc)

-- A pool with a cap of two, with both calls running, and one message that waits.
abbrev busy : Pool
busy = record { waiting = 9 ∷ []; slots = 2; running = 8 ∷ 7 ∷ []; ended = [] }

busy_reached : Reach (semaphore_of (pos 2)) (7 ∷ 8 ∷ 9 ∷ []) busy
unfolding semaphore_of
busy_reached =
    after (after at_start (start_capped 7 2 (8 ∷ 9 ∷ []) refl refl (omega arith)))
      (start_capped 8 2 (9 ∷ []) refl refl (omega arith))

Reach-limit_example : length busy.running ≤ 2
Reach-limit_example = Reach-limit 1 (7 ∷ 8 ∷ 9 ∷ []) busy busy_reached

Reach-progress_example : IsIdle busy ⊎ ((q : Pool) × Step (semaphore_of (pos 2)) busy q)
Reach-progress_example = Reach-progress (pos 2) (7 ∷ 8 ∷ 9 ∷ []) busy busy_reached
