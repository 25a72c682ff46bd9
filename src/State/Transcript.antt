-- ===== src/State/Transcript.antt =====
-- packages/state/src/transcript.ts: the entries of an agent's transcript, their ids, and the store with
-- its file of lines. JSON is a parameter, and unknown values are their JSON texts.
pub mod Ids
pub mod Reloaded
mod Examples
use open_claw_bot.Common.{
  ℕ, ◌+◌, max, Bool, true, false, not, ◌&&◌, ◌||◌, Option, none, some, List, [], ◌∷◌, ◌++◌, map,
  keep, last?, is_empty, is_some, if◌then◌else◌, ◌==◌, nat_eq, or_else,
}
use open_claw_bot.Common.Texts.{Text, text_eq, trim}
use open_claw_bot.Common.Lines.{split_lines, join_lines}
use open_claw_bot.Common.Decimal.{decimal, digits_value, is_digit_char, all_digits}

pub data TranscriptRole : Type 0 where
  user assistant : TranscriptRole

pub data ToolCallStatus : Type 0 where
  pending done failed : ToolCallStatus

pub record SandMessageAuthor : Type 0 where
  pub id : Text
  pub name : Text

pub record SandSendMessageImage : Type 0 where
  pub url : Text
  pub alt : Option Text

pub data SandSendMessage : Type 0 where
  text_message : (content : Text) (images : List SandSendMessageImage) → SandSendMessage
  widget : Text → SandSendMessage
  attachment : (url : Text) (file_name : Option Text) → SandSendMessage
  secret_request : Text → SandSendMessage

pub record SandEntryBase : Type 0 where
  pub id : Text
  pub timestamp_ms : ℕ
  pub is_streaming : Bool

pub record SandMessage : Type 0 where
  pub role : TranscriptRole
  pub content : Text
  pub reply_to : Option Text
  pub from_agent : Option SandMessageAuthor
  pub to_agent : Option SandMessageAuthor
  pub channel : Option Text
  pub images : List SandSendMessageImage
  pub client_nonce : Option Text
  pub is_fork : Bool

pub data SandTranscriptEntry : Type 0 where
  message : SandEntryBase → SandMessage → SandTranscriptEntry
  tool_call :
      SandEntryBase
      → (tool call_id : Text) → ToolCallStatus
      → (input output : Option Text) → SandTranscriptEntry
  send_message : SandEntryBase → SandSendMessage → (message_id : Option Text) → SandTranscriptEntry
  user_attachment :
      SandEntryBase
      → (url : Text) (file_name : Option Text) (byte_size : Option ℕ) → SandTranscriptEntry
  notice : SandEntryBase → (text : Text) → SandTranscriptEntry
  event : SandEntryBase → (event_name : Text) (payload : Option Text) → SandTranscriptEntry

unfoldable pub base_of : SandTranscriptEntry → SandEntryBase
base_of (message b m) = b
base_of (tool_call b tool call_id status input output) = b
base_of (send_message b m message_id) = b
base_of (user_attachment b url file_name byte_size) = b
base_of (notice b text) = b
base_of (event b event_name payload) = b

abbrev pub entry_id : SandTranscriptEntry → Text
entry_id e = (base_of e).id

unfoldable pub is_message_entry : SandTranscriptEntry → Bool
is_message_entry (message b m) = true
is_message_entry _ = false

unfoldable pub is_send_message_entry : SandTranscriptEntry → Bool
is_send_message_entry (send_message b m message_id) = true
is_send_message_entry _ = false

unfoldable pub is_peer_entry : SandTranscriptEntry → Bool
is_peer_entry (message b m) = is_some m.from_agent || is_some m.to_agent
is_peer_entry _ = false

-- The digits that a text begins with, and what follows them.
unfoldable pub span_digits : Text → Text × Text
span_digits [] = ([], [])
span_digits (c ∷ s) =
    let r = span_digits s in if is_digit_char c then (c ∷ r.0, r.1) else ([], c ∷ s)

-- `/^t(\d+)/`. Digits stand for numbers below 2 ^ 53.
unfoldable pub parse_turn : Text → ℕ
parse_turn [] = 0
parse_turn (c ∷ s) = if c == b't' then digits_value 0 (span_digits s).0 else 0

abbrev pub is_kind_char : ℕ → Bool
is_kind_char c = (c == b'u') || ((c == b's') || ((c == b'n') || (c == b'a')))

seq_behind : Text → Option ℕ
seq_behind [] = none
seq_behind (k ∷ more) =
    if is_kind_char k && (not (is_empty more) && all_digits more)
    then some (digits_value 0 more)
    else none

-- `/^t\d+([usna])(\d+)$/`, and the number of its second group.
unfoldable pub parse_seq : Text → Option ℕ
unfolding seq_behind
parse_seq [] = none
parse_seq (c ∷ s) =
    if (c == b't') && not (is_empty (span_digits s).0) then seq_behind (span_digits s).1 else none

-- The loop of `nextEntryId`.
unfoldable pub highest_seq : ℕ → List SandTranscriptEntry → ℕ → ℕ
highest_seq turn [] seq = seq
highest_seq turn (e ∷ es) seq =
    highest_seq turn es (
      if parse_turn (entry_id e) == turn then max seq (or_else (parse_seq (entry_id e)) 0) else seq)

pub data EntryKind : Type 0 where
  user_message_kind assistant_message_kind attachment_kind notice_kind : EntryKind

unfoldable pub prefix_of : EntryKind → ℕ
prefix_of user_message_kind = b'u'
prefix_of assistant_message_kind = b's'
prefix_of attachment_kind = b'a'
prefix_of notice_kind = b's'

unfoldable pub last_turn : List SandTranscriptEntry → ℕ
last_turn es = elim (last? es) [ none ↦ 0 | some e ↦ parse_turn (entry_id e) ]

unfoldable pub next_entry_id : List SandTranscriptEntry → EntryKind → Text
next_entry_id es kind =
    let turn = last_turn es in
    b't' ∷ (decimal turn ++ (prefix_of kind ∷ decimal (highest_seq turn es 0 + 1)))

-- What `onMutation` is told, with the agent of the store.
pub data TranscriptMutation : Type 0 where
  entries_upserted : List SandTranscriptEntry → TranscriptMutation
  entry_deleted : (entry_id : Text) → TranscriptMutation
  conversation_cleared : TranscriptMutation

-- `file` is the text of `transcript.jsonl`, if it is there; `has_dir` tells if the store has a directory.
pub record TranscriptStore : Type 0 where
  pub entries : List SandTranscriptEntry
  pub loaded : Bool
  pub has_dir : Bool
  pub file : Option Text

abbrev is_fork_entry : SandTranscriptEntry → Bool
is_fork_entry (message b m) = m.is_fork
is_fork_entry (tool_call b tool call_id status input output) = false
is_fork_entry (send_message b m message_id) = false
is_fork_entry (user_attachment b url file_name byte_size) = false
is_fork_entry (notice b text) = false
is_fork_entry (event b event_name payload) = false

abbrev is_user : TranscriptRole → Bool
is_user user = true
is_user assistant = false

unfoldable pub get_main_thread : Bool → TranscriptStore → List SandTranscriptEntry
get_main_thread include_forks s = keep (λ e. include_forks || not (is_fork_entry e)) s.entries

unfoldable pub find_entry : Text → List SandTranscriptEntry → Option SandTranscriptEntry
find_entry id [] = none
find_entry id (e ∷ es) = if entry_id e == id then some e else find_entry id es

unfoldable pub get_by_id : Text → TranscriptStore → Option SandTranscriptEntry
unfolding find_entry
get_by_id id s = find_entry id s.entries

unfoldable pub is_recent_user_message : SandTranscriptEntry → Bool
is_recent_user_message (message b m) =
    is_user m.role && (not (is_some m.from_agent) && not (is_some m.channel))
is_recent_user_message _ = false

-- The entries behind `recentUserMessages`, which hands on their id and content.
unfoldable pub recent_user_messages : TranscriptStore → List SandTranscriptEntry
unfolding is_recent_user_message
recent_user_messages s = keep is_recent_user_message s.entries

-- The first entry with the id is taken out, if there is one.
unfoldable pub without_first : Text → List SandTranscriptEntry → Option (List SandTranscriptEntry)
without_first id [] = none
without_first id (e ∷ es) =
    let rest = without_first id es in
    if entry_id e == id then some es else elim rest [ none ↦ none | some r ↦ some (e ∷ r) ]

module _ (stringify : SandTranscriptEntry → Text) (parse : Text → Option SandTranscriptEntry) where
  -- The entries of the lines that are JSON; others are skipped.
  unfoldable pub read_lines : List Text → List SandTranscriptEntry
  read_lines [] = []
  read_lines (l ∷ ls) =
      let rest = read_lines ls in
      if is_empty (trim l) then rest else elim (parse (trim l)) [ none ↦ rest | some e ↦ e ∷ rest ]

  unfoldable pub read_file : Option Text → List SandTranscriptEntry
  unfolding read_lines
  read_file none = []
  read_file (some raw) = read_lines (split_lines raw)

  unfoldable pub load : TranscriptStore → TranscriptStore
  unfolding read_file
  load s = if s.loaded then s else record s {
    loaded = true;
    entries = s.entries ++ (if s.has_dir then read_file s.file else []);
  }

  unfoldable pub all_lines : List SandTranscriptEntry → Text
  all_lines es = join_lines (map stringify es) ++ (10 ∷ [])

  -- `appendFile` makes a file that is not there.
  unfoldable pub append_text : Text → TranscriptStore → TranscriptStore
  append_text t s = record s { file = if s.has_dir then some (or_else s.file [] ++ t) else s.file }

  unfoldable pub rewrite : TranscriptStore → TranscriptStore
  unfolding all_lines
  rewrite s = record s { file = if s.has_dir then some (all_lines s.entries) else s.file }

  unfoldable pub append :
      SandTranscriptEntry → TranscriptStore → TranscriptStore × List TranscriptMutation
  unfolding append_text
  append e s = (
    append_text (stringify e ++ (10 ∷ [])) (record s { entries = s.entries ++ (e ∷ []) }),
    entries_upserted (e ∷ []) ∷ [],
  )

  unfoldable pub append_many :
      List SandTranscriptEntry → TranscriptStore → TranscriptStore × List TranscriptMutation
  unfolding append_text all_lines
  append_many es s = (
    append_text (all_lines es) (record s { entries = s.entries ++ es }),
    entries_upserted es ∷ [],
  )

  -- `deleteEntry` behind its search.
  unfoldable pub deleted :
      Text
      → Option (List SandTranscriptEntry)
      → TranscriptStore
      → TranscriptStore × List TranscriptMutation
  unfolding rewrite
  deleted id none s = (s, [])
  deleted id (some es) s = (rewrite (record s { entries = es }), entry_deleted id ∷ [])

  unfoldable pub delete_entry : Text → TranscriptStore → TranscriptStore × List TranscriptMutation
  unfolding deleted
  delete_entry id s = deleted id (without_first id s.entries) s

  unfoldable pub clear : TranscriptStore → TranscriptStore × List TranscriptMutation
  unfolding rewrite
  clear s = (rewrite (record s { entries = [] }), conversation_cleared ∷ [])

-- The calls that change the store.
pub data StoreCall : Type 0 where
  appends : SandTranscriptEntry → StoreCall
  appends_many : List SandTranscriptEntry → StoreCall
  deletes : (id : Text) → StoreCall
  clears : StoreCall
  loads : StoreCall

module _ (stringify : SandTranscriptEntry → Text) (parse : Text → Option SandTranscriptEntry) where
  unfoldable pub store_call : StoreCall → TranscriptStore → TranscriptStore
  store_call (appends e) s = (append stringify parse e s).0
  store_call (appends_many es) s = (append_many stringify parse es s).0
  store_call (deletes id) s = (delete_entry stringify parse id s).0
  store_call clears s = (clear stringify parse s).0
  store_call loads s = load stringify parse s

  unfoldable pub store_calls : List StoreCall → TranscriptStore → TranscriptStore
  store_calls [] s = s
  store_calls (c ∷ cs) s = store_calls cs (store_call c s)

-- A store that is opened over what another left.
unfoldable pub opened : Bool → Option Text → TranscriptStore
opened has_dir file = record { entries = []; loaded = false; has_dir = has_dir; file = file }
