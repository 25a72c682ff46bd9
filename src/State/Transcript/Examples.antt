-- ===== src/State/Transcript/Examples.antt =====
-- A short transcript of packages/state/src/transcript.ts.
use open_claw_bot.Common.{
  ◌+◌, ◌≡◌, ◌≢◌, refl, sym, ap, true, false, Option, none, some, List, [], ◌∷◌, ◌++◌, All,
  if◌then◌else◌, ◌==◌,
}
use open_claw_bot.Common.Texts.{Text, units, text_beq, text_eq, trim}
use open_claw_bot.Common.Decimal.{decimal, digits_value, all_digits}
use open_claw_bot.Common.Lines.{split_lines, join_lines}
use open_claw_bot.State.Transcript.{
  SandTranscriptEntry, message, notice, user, entry_id, base_of, span_digits, parse_turn, parse_seq,
  highest_seq, user_message_kind, notice_kind, prefix_of, last_turn, next_entry_id, get_main_thread,
  is_peer_entry, get_by_id, recent_user_messages, without_first, read_lines, read_file, load,
  append, append_many, delete_entry, clear, StoreCall, appends, appends_many, deletes, loads,
  store_call, store_calls, opened,
}
use open_claw_bot.State.Transcript.Ids.{next_entry_id-fresh}
use open_claw_bot.State.Transcript.Reloaded.{Json, load-store_calls}

abbrev row : SandTranscriptEntry
row = notice (record { id = units "t0u9"; timestamp_ms = 1; is_streaming = false }) (units "n")

abbrev hello_row : SandTranscriptEntry
hello_row =
    message (record { id = units "t0u10"; timestamp_ms = 2; is_streaming = false })
      (record {
        role = user;
        content = units "hi";
        reply_to = none;
        from_agent = none;
        to_agent = none;
        channel = none;
        images = [];
        client_nonce = none;
        is_fork = false;
      })

ids_run :
    (next_entry_id (row ∷ hello_row ∷ []) user_message_kind ≡ units "t0u11")
    × (next_entry_id (row ∷ []) notice_kind ≡ units "t0s10")
    × (next_entry_id [] user_message_kind ≡ units "t0u1")
    × (parse_turn (units "t12x") ≡ 12)
    × (parse_seq (units "t12x") ≡ none)
unfolding next_entry_id last_turn highest_seq parse_turn parse_seq span_digits prefix_of decimal
    digits_value all_digits base_of
ids_run = (refl, refl, refl, refl, refl)

next_entry_id-fresh_example :
    All (λ e. entry_id e ≢ next_entry_id (row ∷ hello_row ∷ []) notice_kind) (row ∷ hello_row ∷ [])
    × (parse_turn (next_entry_id (row ∷ hello_row ∷ []) notice_kind)
        ≡ last_turn (row ∷ hello_row ∷ []))
    × (parse_seq (next_entry_id (row ∷ hello_row ∷ []) notice_kind)
        ≡ some (highest_seq (last_turn (row ∷ hello_row ∷ [])) (row ∷ hello_row ∷ []) 0 + 1))
next_entry_id-fresh_example = next_entry_id-fresh (row ∷ hello_row ∷ []) notice_kind

-- JSON as far as one entry goes.
abbrev print_row : SandTranscriptEntry → Text
print_row e = units "{}"

abbrev read_row : Text → Option SandTranscriptEntry
read_row t = if t == units "{}" then some row else none

abbrev IsRow : SandTranscriptEntry → Type 0
IsRow e = e ≡ row

IsRow-json : Json print_row read_row IsRow
unfolding trim text_beq
IsRow-json = record {
  one_line = λ e same. refl;
  trimmed = λ e same. refl;
  not_empty = λ e same. refl;
  read_back = λ e same. ap some (sym same);
}

abbrev history : List StoreCall
history =
    appends row
    ∷ appends_many (row ∷ row ∷ [])
    ∷ appends_many []
    ∷ deletes (units "t0u9")
    ∷ loads
    ∷ []

history_runs :
    ((store_calls print_row read_row history (load print_row read_row (opened true none))).file
      ≡ some (units "{}" ++ (10 ∷ (units "{}" ++ (10 ∷ [])))))
    × (get_main_thread false
          (store_calls print_row read_row history (load print_row read_row (opened true none)))
        ≡ row ∷ row ∷ [])
    × (recent_user_messages
          (store_calls print_row read_row (appends hello_row ∷ []) (opened false none))
        ≡ hello_row ∷ [])
    × (get_by_id
          (units "t0u10")
          (store_calls print_row read_row (appends hello_row ∷ []) (opened false none))
        ≡ some hello_row)
    × (is_peer_entry hello_row ≡ false)
unfolding store_calls store_call append append_many delete_entry clear load opened read_file
    read_lines split_lines join_lines without_first base_of text_beq trim get_main_thread
    recent_user_messages get_by_id is_peer_entry
history_runs = (refl, refl, refl, refl, refl)

load-store_calls_example :
    (load print_row read_row (
      opened true
        (store_calls print_row read_row history
          (load print_row read_row (opened true none))).file)).entries
    ≡ (store_calls print_row read_row history (load print_row read_row (opened true none))).entries
load-store_calls_example =
    load-store_calls print_row read_row IsRow IsRow-json history
      (refl, ((refl, (refl, tt)), (tt, (tt, (tt, tt)))))
