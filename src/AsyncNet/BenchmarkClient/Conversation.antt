-- ===== src/AsyncNet/BenchmarkClient/Conversation.antt =====
-- A worker of 01_AsyncNet_Server/client/BenchmarkClient.cpp and a session of src/Session.cpp.
use Prim.Native.String.{String}
use object_oriented_programm.Prelude.{
  ℕ, zero, suc, ◌+◌, ◌≡◌, refl, ◌<◌, ◌≤◌, ◌^◌, true, List, [], ◌∷◌, ◌++◌, length, arith, ap, ◌∙◌,
  sym, append-nil,
}
use object_oriented_programm.AsyncNet.Protocol.{serialize_packet}
use object_oriented_programm.AsyncNet.SessionManager.{SessionManager}
use object_oriented_programm.AsyncNet.Session.{run}
use object_oriented_programm.AsyncNet.Session.Echo.{
  idle, header_bytes, echoes, answers, Payloads, run-echoes, serialize-answer,
}
use object_oriented_programm.AsyncNet.BenchmarkClient.{
  Socket, Totals, test_payload, echo_packet, run_client_worker,
}
use object_oriented_programm.AsyncNet.BenchmarkClient.Answers.{Short, response, responses, times}
use object_oriented_programm.AsyncNet.BenchmarkClient.Clients.{AnsweringPeer, worker-answered}

abbrev pub flat : List (List ℕ) → List ℕ
flat [] = []
flat (bytes ∷ buffers) = bytes ++ flat buffers

abbrev pub requested : ℕ → List (List ℕ)
requested zero = []
requested (suc n) = test_payload ∷ requested n

flat-answers :
    (payloads : List (List ℕ)) → Payloads payloads → flat (answers payloads) ≡ responses payloads
flat-answers [] small = refl
flat-answers (payload ∷ payloads) (some_byte, few, small) =
    ap (λ bytes. bytes ++ flat (answers payloads)) (sym (serialize-answer payload few))
    ∙ ap (λ bytes. response payload ++ bytes) (flat-answers payloads small)

requested-Short : (n : ℕ) → Short (requested n)
requested-Short zero = tt
requested-Short (suc n) = (omega arith, requested-Short n)

requested-Payloads : (n : ℕ) → Payloads (requested n)
requested-Payloads zero = tt
requested-Payloads (suc n) = (omega arith, omega arith, requested-Payloads n)

length-requested : (n : ℕ) → length (requested n) ≡ n
length-requested zero = refl
length-requested (suc n) = ap suc (length-requested n)

module _ {Latency : Type 0} (elapsed : ℕ → Latency) where
  -- The header and the payload that the session below is sent are the bytes of the client's
  -- request; and a worker that reaches its peer, can write its requests and its last packet, and
  -- reads the bytes which an idle session of the server writes for this many such requests,
  -- completes every request, has no error and records the latency of each, for a number of requests
  -- that fits an int and the vector and a total below 2 ^ 64.
  pub conversation :
      (max_size n self : ℕ) (address : String) (m : SessionManager) (s : Socket)
      (t : Totals Latency)
      → n < 2 ^ 31
      → n ≤ max_size
      → s.reachable ≡ true
      → n < s.writable
      → s.input ≡ flat (run (echoes (requested n)) (idle [] self address m)).delivered
      → t.completed + n < 2 ^ 64
      → (header_bytes test_payload ++ test_payload ≡ serialize_packet echo_packet)
        × (run_client_worker elapsed max_size n s t ≡ record {
          completed = t.completed + n;
          errors = t.errors;
          latencies = t.latencies ++ times elapsed n 0;
        })
  unfolding serialize_packet echo_packet
  conversation max_size n self address m s t int fits reached room sends small =
      let served =
        ap (λ v. flat v.delivered)
          (run-echoes (requested n) [] self address m (requested-Payloads n))
        ∙ flat-answers (requested n) (requested-Payloads n) in
      let peer : AnsweringPeer n s = record {
        payloads = requested n;
        rest = [];
        short = requested-Short n;
        as_many = length-requested n;
        reached = reached;
        room = room;
        sends = sends ∙ served ∙ sym (append-nil (responses (requested n)));
      } in
      (refl, worker-answered elapsed max_size n s t int fits peer small)
