-- ===== src/Transport/Port/Session.antt =====
-- What a client may rely on of a session of packages/transport/src/port.ts.
use open_claw_bot.Common.{
  ℕ, ◌+◌, ◌≡◌, refl, sym, ◌∙◌, inl, inr, Bool, true, false, Option, none, some, ◌≤◌, is_some, List,
  [], ◌∷◌, ◌++◌, if◌then◌else◌, ◌==◌, nat_eq, arith, Bool-cases,
}
use open_claw_bot.Common.Texts.{Text, text_eq}
use open_claw_bot.Common.Maps.{
  Dict, get, set, delete, ==_refl, get-set, get-delete, get-set_other, get-delete_other,
}
use open_claw_bot.Transport.Frames.{
  ready, shutdown, ok_outcome, error_outcome, ServerFrame, server_lifecycle, reply, event, Thrown,
  error, other_value, make_ok_reply, make_error_reply,
}
use open_claw_bot.Transport.Port.{
  PortSettlement, protocol_breach, PortServer, ServerOutput, posts, answers, settles, dispatches,
  client_ready,
}

-- A session as a client may rely on it: before the hello, running with the dispatches that wait for
-- their reply, or over. `told` is true between the notice of a breach and the settlement that it
-- announces.
pub data Session : Type 0 where
  before : (told : Bool) → Session
  running : (told : Bool) → Dict ℕ Text → Session
  over : Session

-- What may be posted when, replies apart.
unfoldable pub may_post : ServerFrame → Session → Option Session
may_post (server_lifecycle ready reason detail) (before false) = some (running false [])
may_post (server_lifecycle shutdown reason detail) (before false) = some (before true)
may_post (server_lifecycle shutdown reason detail) (running false calls) = some (running true calls)
may_post (event family payload) (running false calls) = some (running false calls)
may_post _ _ = none

-- A reply to the request `id`, with a value or an error.
unfoldable pub answers_to : Text → ServerFrame → Bool
answers_to id (reply j (ok_outcome value)) = j == id
answers_to id (reply j (error_outcome (some name) (some message))) = j == id
answers_to id _ = false

unfoldable pub may_answer : ℕ → ServerFrame → Session → Option Session
may_answer ticket f (running false calls) = elim (get calls ticket) [
  | none ↦ none
  | some id ↦ if answers_to id f then some (running false (delete calls ticket)) else none
]
may_answer ticket f _ = none

-- A breach that was announced is how the session ends.
unfoldable pub may_settle : PortSettlement → Session → Option Session
may_settle how (before false) = some over
may_settle (protocol_breach detail) (before true) = some over
may_settle how (running false calls) = some over
may_settle (protocol_breach detail) (running true calls) = some over
may_settle _ _ = none

-- A dispatch has a new ticket.
unfoldable pub may_dispatch : ℕ → Text → Session → Option Session
may_dispatch ticket id (running false calls) =
    if is_some (get calls ticket) then none else some (running false (set calls ticket id))
may_dispatch ticket id _ = none

unfoldable pub may_greet : Session → Option Session
may_greet (running false calls) = some (running false calls)
may_greet _ = none

unfoldable pub accept_one : ServerOutput → Session → Option Session
unfolding may_post answers_to may_answer may_settle may_dispatch may_greet
accept_one (posts f) s = may_post f s
accept_one (answers ticket f) s = may_answer ticket f s
accept_one (settles how) s = may_settle how s
accept_one (dispatches ticket id method args) s = may_dispatch ticket id s
accept_one client_ready s = may_greet s

abbrev pub conforms : List ServerOutput → Option Session → Option Session
conforms outputs none = none
conforms [] (some s) = some s
conforms (o ∷ outputs) (some s) = conforms outputs (accept_one o s)

conforms-none : (outputs : List ServerOutput) → conforms outputs none ≡ none
conforms-none [] = refl
conforms-none (o ∷ outputs) = refl

pub conforms-append :
    (xs ys : List ServerOutput) (s : Option Session)
    → conforms (xs ++ ys) s ≡ conforms ys (conforms xs s)
conforms-append [] ys none = refl
conforms-append [] ys (some s) = refl
conforms-append (x ∷ xs) ys none = sym (conforms-none ys)
conforms-append (x ∷ xs) ys (some s) = conforms-append xs ys (accept_one x s)

abbrev pub server_with : Bool → Bool → Dict ℕ Text → ℕ → PortServer
server_with settled is_ready calls n = record {
  settled = settled;
  is_ready = is_ready;
  calls = calls;
  next_ticket = n;
}

abbrev pub Within : Dict ℕ Text → Dict ℕ Text → Type 0
Within own seen = (ticket : ℕ) (id : Text) → get own ticket ≡ some id → get seen ticket ≡ some id

abbrev pub IsBelow : ℕ → Dict ℕ Text → Type 0
IsBelow n seen = (ticket : ℕ) → n ≤ ticket → get seen ticket ≡ none

-- How the server's state and the session that was seen go together.
abbrev pub Follows : PortServer → Session → Type 0
Follows s over = (r : Bool) × (calls : Dict ℕ Text) × (n : ℕ) × (s ≡ server_with true r calls n)
Follows s (before true) = ⊥
Follows s (before false) = (n : ℕ) × (s ≡ server_with false false [] n)
Follows s (running true seen) = ⊥
Follows s (running false seen) =
    (calls : Dict ℕ Text) × (n : ℕ) × (s ≡ server_with false true calls n)
    × Within calls seen
    × IsBelow n seen

-- The outputs of a step conform, and the state follows.
abbrev pub Goes : Session → PortServer × List ServerOutput → Type 0
Goes w r = (w' : Session) × (conforms r.1 (some w) ≡ some w') × Follows r.0 w'

pub Within-delete :
    (own seen : Dict ℕ Text) (k : ℕ) → Within own seen → Within (delete own k) (delete seen k)
Within-delete own seen k sub ticket id h = elim (Bool-cases (k == ticket)) [
  | inl same ↦ (let gone : none ≡ some id = sym (get-delete own k ticket ∙ rw same) ∙ h in cc)
  | inr other ↦
      get-delete_other seen k ticket other
      ∙ sub ticket id (sym (get-delete_other own k ticket other) ∙ h)
]

pub Within-delete_left :
    (own seen : Dict ℕ Text) (k : ℕ) → Within own seen → Within (delete own k) seen
Within-delete_left own seen k sub ticket id h = elim (Bool-cases (k == ticket)) [
  | inl same ↦ (let gone : none ≡ some id = sym (get-delete own k ticket ∙ rw same) ∙ h in cc)
  | inr other ↦ sub ticket id (sym (get-delete_other own k ticket other) ∙ h)
]

pub Within-set :
    (own seen : Dict ℕ Text) (k : ℕ) (v : Text)
    → Within own seen
    → Within (set own k v) (set seen k v)
Within-set own seen k v sub ticket id h = elim (Bool-cases (k == ticket)) [
  | inl same ↦ get-set seen k ticket v ∙ rw same (sym (get-set own k ticket v ∙ rw same) ∙ h)
  | inr other ↦
      get-set_other seen k ticket v other
      ∙ sub ticket id (sym (get-set_other own k ticket v other) ∙ h)
]

pub IsBelow-set :
    (n : ℕ) (seen : Dict ℕ Text) (v : Text) → IsBelow n seen → IsBelow (n + 1) (set seen n v)
IsBelow-set n seen v below ticket h =
    get-set_other seen n ticket v (ground arith) ∙ below ticket (omega arith)

pub IsBelow-delete : (n k : ℕ) (seen : Dict ℕ Text) → IsBelow n seen → IsBelow n (delete seen k)
IsBelow-delete n k seen below ticket h =
    get-delete seen k ticket ∙ rw (below ticket h) (ground arith)

pub error_reply-answers :
    (id : Text) (thrown : Thrown) → answers_to id (make_error_reply id thrown) ≡ true
unfolding answers_to make_error_reply
error_reply-answers id (error name message) = ==_refl id
error_reply-answers id (other_value t) = ==_refl id

pub ok_reply-answers : (id : Text) (value : ℕ) → answers_to id (make_ok_reply id value) ≡ true
unfolding answers_to make_ok_reply
ok_reply-answers id value = ==_refl id

pub answer-accepted :
    (ticket : ℕ) (id : Text) (f : ServerFrame) (seen : Dict ℕ Text)
    → get seen ticket ≡ some id
    → answers_to id f ≡ true
    → accept_one (answers ticket f) (running false seen) ≡ some (running false (delete seen ticket))
unfolding accept_one may_answer
answer-accepted ticket id f seen found fits = rw (found, may_answer, fits)

pub dispatch-accepted :
    (n : ℕ) (id method : Text) (args : Option ℕ) (seen : Dict ℕ Text)
    → get seen n ≡ none
    → accept_one (dispatches n id method args) (running false seen)
      ≡ some (running false (set seen n id))
unfolding accept_one may_dispatch
dispatch-accepted n id method args seen free = rw free
