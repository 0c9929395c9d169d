-- ===== src/Server/Relay.antt =====
-- src/server.rs, forward: the task that owns a slot while llama-server works on it.
pub mod Release
pub mod Unwinding
use aivyx_broker.Prelude.{
  ℕ, suc, ◌+◌, Bool, true, false, Option, List, [], ◌∷◌, ◌++◌, String, Text, Result, ok, err,
  if◌then◌else◌,
}
use aivyx_broker.Json.{Json}
use aivyx_broker.Scheduler.{SlotHint, Admission}
use aivyx_broker.Server.Upstream.{
  Action, send_head, read, send_chunk, abandon, close, release, Outside, UpstreamResponse,
  send_upstream,
}

-- How sending a chunk to the client ends: it is taken, the client is gone, or `client_send_timeout`
-- passes first.
pub data Sent : Type 0 where
  accepted hung_up timed_out : Sent

-- What the client does: whether it is there for the head, and with the i-th chunk that is sent.
pub record Client : Type 0 where
  pub takes_head : Bool
  pub takes : ℕ → Sent

module _ (J : Json) (client : Client) where
  -- The loop over llama-server's chunks. `there` says whether the client is still served, and `i`
  -- counts the chunks sent to it; the answer is the actions and whether the client is still served.
  unfoldable pub relay : Bool → ℕ → List (Result Text String) → List (Action J) × Bool
  relay there i [] = (read ∷ [], there)
  relay false i (err e ∷ chunks) = (read ∷ [], false)
  relay false i (ok c ∷ chunks) =
      let (actions, left) = relay false i chunks in (read ∷ actions, left)
  relay true i (err e ∷ chunks) = elim (client.takes i) [
    | accepted ↦ (read ∷ send_chunk (err e) ∷ [], true)
    | hung_up ↦ (read ∷ close ∷ [], false)
    | timed_out ↦ (read ∷ abandon ∷ close ∷ [], false)
  ]
  relay true i (ok c ∷ chunks) =
      let (more, still) = relay true (suc i) chunks in
      let (drained, left) = relay false i chunks in
      elim (client.takes i) [
        | accepted ↦ (read ∷ send_chunk (ok c) ∷ more, still)
        | hung_up ↦ (read ∷ close ∷ drained, left)
        | timed_out ↦ (read ∷ abandon ∷ close ∷ drained, left)
      ]

  abbrev pub drop_client : Bool → List (Action J)
  drop_client true = close ∷ []
  drop_client false = []

  -- From the head on. A client that is gone by then has its sender dropped at once.
  unfoldable pub relay_response : ℕ → UpstreamResponse → List (Action J)
  unfolding relay
  relay_response slot_id resp =
      let (actions, there) = relay client.takes_head 0 resp.chunks in
      send_head (ok (record { status = resp.status; headers = resp.headers }))
        ∷ drop_client (if client.takes_head then false else true)
      ++ actions
      ++ release slot_id ∷ drop_client there

  unfoldable pub forward :
      Outside J → Text → Json.Value J → Option SlotHint → Admission → List (Action J)
  unfolding relay_response
  forward outside llama_server_url body hint admission =
      let (actions, sent) = send_upstream J outside llama_server_url body hint admission in
      elim sent [
        | err e ↦ actions ++ send_head (err e) ∷ close ∷ release admission.slot_id ∷ []
        | ok resp ↦ actions ++ relay_response admission.slot_id resp
      ]
