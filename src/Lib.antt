-- ===== src/Lib.antt =====
-- The voice agent's core: which audio of the agent reaches the caller, and when the caller's turn ends.
--
-- A call runs as a set of tasks (src/voice_agent/core/session_orchestrator.py) that send each other
-- packets through queues. Speech events and transcripts go to the turn manager, which decides when the
-- caller's turn is over and emits it, and to the interruption manager, which decides whether the caller
-- interrupts the agent. A response of the agent has a sequence id; its audio passes the output loop, which asks the
-- sequence manager whether the id is valid and the output gate whether it may be sent. A confirmed
-- interruption invalidates the ids and blocks them at the gate. The playback tracker records what was sent
-- and estimates what the caller heard. The text of a response comes as tokens of a language model, which the
-- sentence aggregator gathers to chunks that are spoken. The conversation context keeps the recent turns of both
-- sides and a summary of the older ones; the end-call listener looks for the caller's wish to end the call.
--
-- Files, and the code they model:
--   Prelude, Text      shared helpers: numbers, lists, sets, dictionaries; Python's str as code points
--   Contracts          src/voice_agent/contracts/events.py, audio.py, and the settings of config.py
--   Turn/Rules         core/turn_detection/rules.py (under src/voice_agent, as all paths below)
--   Turn/SmartTurn     core/turn_detection/smart_turn_runner.py and expected_answer.py
--   Turn/Merge         merge_turn_text and _dedupe_text of core/turn_detection/turn_manager.py
--   Turn/State, Manager, Evaluate, Emit
--                      TurnState and TurnManager of the same file; `turn_text` is the property `text`
--   Interruption/Sequences, Gate, Phrases
--                      core/interruption/sequence_manager.py, output_gate.py, phrase_classifier.py
--   Interruption/State, Manager
--                      core/interruption/interruption_manager.py
--   Playback/Message, Heard, Tracker, Events
--                      core/playback/playback_tracker.py
--   Audio/Sizes, Mulaw  audio/converter.py: sizes and durations, and the mu-law code of one sample
--   Audio/Chunks, RollingBuffer
--                      audio/chunker.py and rolling_buffer.py
--   Queues/Packet, Queue, Session, Put
--                      contracts/packets.py, core/queues/backpressure.py and queue_manager.py
--   Queues/Purge       _purge_invalid_packets of core/session_orchestrator.py
--   Metrics/Latency    core/metrics/latency_tracker.py
--   Session/Output     _output_loop of core/session_orchestrator.py
--   Session/TurnCheck  _next_turn_check_delay_ms, _empty_transcript_retry_delay_ms and the suppression of
--                      transcripts of the same file
--   Session/Cancel     _invalidate_prior_output_for_new_turn, _cancel_active_response_for_late_transcript and
--                      _invalidate_pending_output_for_empty_transcript_retry of the same file
--   Session/EmitTurn   _emit_turn_if_ready, _emit_empty_transcript_retry_if_ready and _start_overlap_suppression
--                      of the same file; the call that a look ends with is its result
--   Session/Release    _release_agent_if_estimated_playback_complete of the same file
--   Session/Closing    _maybe_hangup_after_assistant_turn, _request_call_hangup, shutdown and _finalize_closed of
--                      the same file, and core/state_machine.py
--   Response/Sanitize, Aggregator, Aggregator/Stream
--                      core/response/sentence_aggregator.py
--   Listener/Phrases, Payload, EndCall
--                      core/listener/end_call_listener.py
--   Conversation/Summarizer
--                      core/context/summarizer.py
--   Conversation/Records, Context
--                      core/context/context_manager.py
--   Conversation/Plain the specification of Context: lists of records, without objects and without an index
--   Tests              runs of the code at concrete data
-- The child modules of these are about their properties: Sequences/Validity and Staleness, Gate/Waiting,
-- Phrases/Longest, Manager/Confirmed, Decisions and Records, Evaluate/Sound, Emit/Ids and Late, Merge/Overlap,
-- Heard/Prefix, Tracker/Links, Chunks/Whole, Mulaw/RoundTrip, RollingBuffer/Kept, Latency/Firsts, Events/Outcomes and Completion, Put/Outcomes and Broadcast, Output/Fates
-- and Account, TurnCheck/Progress, Cancel/Silence, Release/Estimate, EmitTurn/Looks, Closing/Once, Sanitize/Blanks, Marks and Spoken, Aggregator/Boundary, Stream/Pieces, Conservation and Waiting,
-- Phrases/Windows, EndCall/Intent, Summarizer/Budget, Context/Heap, Cuts, Refinement and Bounds.
--
-- Conventions. Times are natural numbers of milliseconds, and `now_ms()` is an argument `now`, one
-- for each reading that matters (`Readings` of Session/EmitTurn); where the source
-- takes `max(0, a - b)`, so does the subtraction of naturals, and a difference that the source compares
-- unclamped is only compared with bounds that are not negative. A time of 0 counts as
-- missing where the source writes `a or b`. Confidences are numbers of millionths. A text is the list of its code points; the
-- tables of Unicode are an instance argument `Unicode` that states what the code relies on. Methods that change an object return the new
-- object, in a pair with their result where they have one. What providers do is a record `Ports` of functions on a world, each
-- of which may raise. A regular expression is a scanner that gives the length of its match at a position; each of
-- the expressions matches at most one length. A number in the answer of a language model is an integer of
-- millionths, so that a NaN is left out. What other tasks do
-- while a task waits is an explicit argument of the wait for the gate (`rounds`), of a turn of the output loop and of the calls of
-- Session/Cancel (both `meanwhile`). Elsewhere no other task runs at an await: in Interruption/Manager the
-- callback and the cancellations, which `confirm` awaits last, act on the world and on the list of errors only, so that what
-- another task, or the callback, does to the gate or to the sequences there is left out; and in Session/Closing, where the
-- calls act on the world only, and the invalidation, the end of the queues, the live state and the stop of the providers
-- are ports too.
--
-- Bounds and fuel. The overlap of two texts is searched from the length of the shorter one downwards, by recursion on
-- that length. The purge of a queue has fuel for one packet more than the queue holds, and its theorem says that this is
-- enough, and the cutting of a frame into chunks has fuel for one chunk for each byte, with the same. All other loops are over lists.
--
-- Not modelled: the network providers, the web interface, the start of tasks, logs and the summary of latencies; the
-- resampler and the conversion of whole frames, the builder of prompts and the other loops of the session.
pub mod Prelude
pub mod Text
pub mod Contracts
pub mod Turn
pub mod Interruption
pub mod Playback
pub mod Audio
pub mod Queues
pub mod Response
pub mod Listener
pub mod Conversation
pub mod Session
pub mod Metrics
pub mod Tests
