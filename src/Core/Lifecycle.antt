-- ===== src/Core/Lifecycle.antt =====
-- packages/core/src/run-lifecycle.ts (RunLifecycle): the run windows of agents and the
-- acknowledgements that they owe. A method returns the new state and the callbacks that it makes, and
-- times are arguments.
pub mod Window
pub mod Windows
pub mod Acks
mod Examples
use open_claw_bot.Common.{
  ℕ, ◌+◌, ◌-◌, Bool, true, false, Option, none, some, List, [], ◌∷◌, ◌++◌, map, length, keep,
  contains, if◌then◌else◌, ◌==◌, nat_eq, ltb, or_else,
}
use open_claw_bot.Common.Texts.{Text, text_eq}
use open_claw_bot.Common.Maps.{Dict, get, set, delete}

pub record AckObligation : Type 0 where
  pub agent_id : Text
  pub token : Text
  pub created_at_ms : ℕ
  pub coalesced_count : ℕ

-- What `onTurnCompleted` is told.
pub record CompletedTurn : Type 0 where
  pub agent_id : Text
  pub started_at_ms : ℕ
  pub sources : List Text

pub record RunLifecycle : Type 0 where
  pub run_window_started_at : Dict Text ℕ
  pub run_sources : Dict Text (List Text)
  pub in_flight_run_counts : Dict Text ℕ
  pub acks : Dict Text AckObligation

abbrev pub new_lifecycle : RunLifecycle
new_lifecycle = record {
  run_window_started_at = [];
  run_sources = [];
  in_flight_run_counts = [];
  acks = [];
}

-- The callbacks of the options.
pub data Report : Type 0 where
  turn_completed : CompletedTurn → Report
  ack_minted ack_retired : AckObligation → Report
  ack_redrive_scheduled : (agent_id : Text) (outstanding : ℕ) → Report

-- `Set.add` on a set in insertion order.
unfoldable pub add_to_set : List Text → Text → List Text
add_to_set xs x = if contains xs x then xs else xs ++ (x ∷ [])

-- `runSources.get(agentId)?.add(source)`.
unfoldable pub add_source : Dict Text (List Text) → Text → Text → Dict Text (List Text)
add_source m agent_id source = elim (get m agent_id) [
  | none ↦ m
  | some xs ↦ set m agent_id (add_to_set xs source)
]

-- A window opens when no run of the agent is in flight.
unfoldable pub open_window : Text → ℕ → ℕ → RunLifecycle → RunLifecycle
open_window agent_id in_flight now s =
    if in_flight == 0
    then record s {
      run_window_started_at = set s.run_window_started_at agent_id now;
      run_sources = set s.run_sources agent_id [];
    }
    else s

unfoldable pub begin_session_run : Text → Text → ℕ → RunLifecycle → RunLifecycle
unfolding add_source open_window
begin_session_run agent_id source now s =
    let in_flight = or_else (get s.in_flight_run_counts agent_id) 0 in
    let opened = open_window agent_id in_flight now s in
    record opened {
      run_sources = add_source opened.run_sources agent_id source;
      in_flight_run_counts = set opened.in_flight_run_counts agent_id (in_flight + 1);
    }

unfoldable pub completed : Text → Option ℕ → List Text → List Report
completed agent_id none sources = []
completed agent_id (some started) sources =
    turn_completed (record { agent_id = agent_id; started_at_ms = started; sources = sources }) ∷ []

-- A count below one does not stay: `remaining > 0` fails also where the source gets -1.
unfoldable pub end_session_run : Text → RunLifecycle → RunLifecycle × List Report
unfolding completed
end_session_run agent_id s =
    let remaining = or_else (get s.in_flight_run_counts agent_id) 1 - 1 in
    if ltb 0 remaining
    then (record s { in_flight_run_counts = set s.in_flight_run_counts agent_id remaining }, [])
    else (
      record s {
        in_flight_run_counts = delete s.in_flight_run_counts agent_id;
        run_window_started_at = delete s.run_window_started_at agent_id;
        run_sources = delete s.run_sources agent_id;
      },
      completed agent_id (get s.run_window_started_at agent_id)
          (or_else (get s.run_sources agent_id) []),
    )

unfoldable pub is_running : Text → RunLifecycle → Bool
is_running agent_id s = ltb 0 (or_else (get s.in_flight_run_counts agent_id) 0)

unfoldable pub running_agent_ids : RunLifecycle → List Text
running_agent_ids s = map (λ p. p.0) s.in_flight_run_counts

-- `mintAck` behind its look-up. The obligation of a token that is known is changed in place.
unfoldable pub minted :
    Text → Text → ℕ → Option AckObligation → RunLifecycle → RunLifecycle × List Report
minted agent_id token now none s =
    let o : AckObligation = record {
      agent_id = agent_id;
      token = token;
      created_at_ms = now;
      coalesced_count = 0;
    } in
    (record s { acks = set s.acks token o }, ack_minted o ∷ [])
minted agent_id token now (some o) s = (
  record s { acks = set s.acks token (record o { coalesced_count = o.coalesced_count + 1 }) },
  [],
)

unfoldable pub mint_ack : Text → Text → ℕ → RunLifecycle → RunLifecycle × List Report
unfolding minted
mint_ack agent_id token now s = minted agent_id token now (get s.acks token) s

unfoldable pub retired : Text → Option AckObligation → RunLifecycle → RunLifecycle × List Report
retired token none s = (s, [])
retired token (some o) s = (record s { acks = delete s.acks token }, ack_retired o ∷ [])

unfoldable pub retire_ack : Text → RunLifecycle → RunLifecycle × List Report
unfolding retired
retire_ack token s = retired token (get s.acks token) s

unfoldable pub outstanding_acks : RunLifecycle → List AckObligation
outstanding_acks s = map (λ p. p.1) s.acks

unfoldable pub outstanding_acks_for : Text → RunLifecycle → List AckObligation
unfolding outstanding_acks
outstanding_acks_for agent_id s = keep (λ o. o.agent_id == agent_id) (outstanding_acks s)

unfoldable pub schedule_ack_redrive_after_idle : Text → RunLifecycle → List Report
schedule_ack_redrive_after_idle agent_id s =
    let n = length (outstanding_acks_for agent_id s) in
    if is_running agent_id s
    then []
    else if n == 0
    then []
    else ack_redrive_scheduled agent_id n ∷ []

-- The wrapper that `attach` puts round a task: what runs when the task has settled.
unfoldable pub settle_run : Text → Option Text → RunLifecycle → RunLifecycle × List Report
settle_run agent_id none s = end_session_run agent_id s
settle_run agent_id (some token) s =
    let r = retire_ack token s in let e = end_session_run agent_id r.0 in (e.0, r.1 ++ e.1)

-- The calls of the owner, and those that an attached scheduler makes.
pub data LifecycleCall : Type 0 where
  begins : (agent_id source : Text) (now : ℕ) → LifecycleCall
  ends : (agent_id : Text) → LifecycleCall
  mints : (agent_id token : Text) (now : ℕ) → LifecycleCall
  retires : (token : Text) → LifecycleCall
  settles : (agent_id : Text) (ack_token : Option Text) → LifecycleCall

unfoldable pub call : LifecycleCall → RunLifecycle → RunLifecycle × List Report
call (begins agent_id source now) s = (begin_session_run agent_id source now s, [])
call (ends agent_id) s = end_session_run agent_id s
call (mints agent_id token now) s = mint_ack agent_id token now s
call (retires token) s = retire_ack token s
call (settles agent_id token) s = settle_run agent_id token s

unfoldable pub calls : List LifecycleCall → RunLifecycle → RunLifecycle × List Report
calls [] s = (s, [])
calls (c ∷ cs) s = let r = call c s in let later = calls cs r.0 in (later.0, r.1 ++ later.1)
