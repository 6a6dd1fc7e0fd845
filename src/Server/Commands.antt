-- ===== src/Server/Commands.antt =====
-- What the commands of a connection of crates/usahp-daemon/src/server.rs are, and how it ends.
use usahp_core.Base.{
  ◌⊎◌, ◌≢◌, All-append, append_assoc, ℕ, ◌≡◌, inl, inr, refl, sym, ◌∙◌, ap, true, false, List, [],
  ◌∷◌, ◌++◌, Option, none, some, All, Option-cases,
}
use usahp_core.Str.{Str}
use usahp_core.Protocol.{ServerMessage, ClientMessage}
use usahp_core.Broker.Types.{BrokerCommand}
use usahp_core.Server.{
  Wire, outgoing, queue_closed, text, other_frame, stream_end, Ending, still_open, finished,
  aborted, command_of, client_loop, handle_client,
}

module _ {S : Type 0} where
  -- A command that a client with this identifier may give while it is connected.
  abbrev pub IsOwn : ℕ → BrokerCommand S → Type 0
  IsOwn k (BrokerCommand.input e) = ⊥
  IsOwn k (BrokerCommand.register s) = ⊥
  IsOwn k (BrokerCommand.unregister j) = ⊥
  IsOwn k (BrokerCommand.handshake j h) = j ≡ k
  IsOwn k (BrokerCommand.heartbeat j id) = j ≡ k
  IsOwn k (BrokerCommand.revoke_session r) = ⊥
  IsOwn k (BrokerCommand.focus_changed p) = ⊥

  -- The commands of a connection: its own, and one `Unregister` at the end exactly if it is over.
  abbrev pub closing : ℕ → Ending → List (BrokerCommand S)
  closing k still_open = []
  closing k finished = BrokerCommand.unregister k ∷ []
  closing k aborted = []

command_of-IsOwn :
    (S : Type 0) (k : ℕ) (o : Option ClientMessage) → All (IsOwn {S = S} k) (command_of {S = S} k o)
command_of-IsOwn S k none = tt
command_of-IsOwn S k (some (ClientMessage.handshake h)) = (refl, tt)
command_of-IsOwn S k (some (ClientMessage.heartbeat id)) = (refl, tt)

module _ (encode : ServerMessage → Option Str) where
  -- A message that the coder cannot encode was among those for the socket.
  abbrev pub HasUnencodable : List Wire → Type 0
  HasUnencodable [] = ⊥
  HasUnencodable (outgoing m sent ∷ wires) = (encode m ≡ none) ⊎ HasUnencodable wires
  HasUnencodable (queue_closed ∷ wires) = HasUnencodable wires
  HasUnencodable (text t ∷ wires) = HasUnencodable wires
  HasUnencodable (other_frame ∷ wires) = HasUnencodable wires
  HasUnencodable (stream_end ∷ wires) = HasUnencodable wires

  -- Nothing among the wires closes the connection: every message was encoded and sent, and neither
  -- the broker's queue nor the stream has ended.
  abbrev pub AreOpen : List Wire → Type 0
  AreOpen [] = Unit {0}
  AreOpen (outgoing m sent ∷ wires) = (encode m ≢ none) × (sent ≡ true) × AreOpen wires
  AreOpen (queue_closed ∷ wires) = ⊥
  AreOpen (text t ∷ wires) = AreOpen wires
  AreOpen (other_frame ∷ wires) = AreOpen wires
  AreOpen (stream_end ∷ wires) = ⊥

  -- What an ending says of the wires.
  abbrev pub Because : List Wire → Ending → Type 0
  Because wires still_open = AreOpen wires
  Because wires finished = ¬ AreOpen wires
  Because wires aborted = HasUnencodable wires

  text-Because :
      (t : Str) (wires : List Wire) (e : Ending) → Because wires e → Because (text t ∷ wires) e
  text-Because t wires still_open h = h
  text-Because t wires finished h = h
  text-Because t wires aborted h = h

  other_frame-Because :
      (wires : List Wire) (e : Ending) → Because wires e → Because (other_frame ∷ wires) e
  other_frame-Because wires still_open h = h
  other_frame-Because wires finished h = h
  other_frame-Because wires aborted h = h

  outgoing-Because :
      (m : ServerMessage) (json : Str) (wires : List Wire) (e : Ending)
      → encode m ≡ some json
      → Because wires e
      → Because (outgoing m true ∷ wires) e
  outgoing-Because m json wires still_open q h = (λ fails. cc (fails, q), refl, h)
  outgoing-Because m json wires finished q h = λ open_wires. h open_wires.2
  outgoing-Because m json wires aborted q h = inr h

module _ {S : Type 0} where
  module _ (encode : ServerMessage → Option Str) (decode : Str → Option ClientMessage) where
    -- The commands of the loop are the client's own, then those that close the connection.
    record Looped (k : ℕ) (wires : List Wire) (commands : List (BrokerCommand S)) (ending : Ending)
        : Type 0 where
      body : List (BrokerCommand S)
      split : commands ≡ body ++ closing k ending
      own : All (IsOwn k) body
      because : Because encode wires ending

    client_loop_lem :
        (k : ℕ) (wires : List Wire)
        → Looped k wires
            (client_loop {S = S} encode decode k wires).0
            (client_loop {S = S} encode decode k wires).1
    unfolding client_loop
    client_loop_lem k [] = record { body = []; split = refl; own = tt; because = tt }
    client_loop_lem k (outgoing m true ∷ wires) = elim (Option-cases (encode m)) [
      | inl fails ↦
          rw (fails, client_loop)
            (record { body = []; split = refl; own = tt; because = inl fails })
      | inr (json, e) ↦
          let rest = client_loop_lem k wires in
          rw (e, client_loop)
            (record {
              body = rest.body;
              split = rest.split;
              own = rest.own;
              because = outgoing-Because encode m json wires _ e rest.because;
            })
    ]
    client_loop_lem k (outgoing m false ∷ wires) = elim (Option-cases (encode m)) [
      | inl fails ↦
          rw (fails, client_loop)
            (record { body = []; split = refl; own = tt; because = inl fails })
      | inr (json, e) ↦
          rw (e, client_loop)
            (record { body = []; split = refl; own = tt; because = λ h. cc (h.1) })
    ]
    client_loop_lem k (queue_closed ∷ wires) = record {
      body = [];
      split = refl;
      own = tt;
      because = λ h. h;
    }
    client_loop_lem k (text t ∷ wires) =
        let rest = client_loop_lem k wires in
        record {
          body = command_of k (decode t) ++ rest.body;
          split =
              ap (λ l. command_of k (decode t) ++ l) rest.split
              ∙ sym (
                  append_assoc (command_of k (decode t)) rest.body
                    (closing k (client_loop {S = S} encode decode k wires).1));
          own =
              All-append (IsOwn k) (command_of k (decode t)) rest.body
                (command_of-IsOwn S k (decode t)) rest.own;
          because = text-Because encode t wires _ rest.because;
        }
    client_loop_lem k (other_frame ∷ wires) =
        let rest = client_loop_lem k wires in
        record {
          body = rest.body;
          split = rest.split;
          own = rest.own;
          because = other_frame-Because encode wires _ rest.because;
        }
    client_loop_lem k (stream_end ∷ wires) = record {
      body = [];
      split = refl;
      own = tt;
      because = λ h. h;
    }

    -- The commands of a registered connection are one registration, then handshakes and heartbeats
    -- under the identifier that the broker gave it and no other, whatever the client sends; and then,
    -- if the connection is finished, one `Unregister` of that identifier, after which there is nothing.
    -- A connection is still open only while each message for the socket was encoded and sent and neither
    -- the broker's queue nor the stream has ended; it is finished only if that is not so; and it ends
    -- without an `Unregister` only if a message for the socket could not be encoded.
    pub handle_client_lem :
        (sender : S) (k : ℕ) (wires : List Wire)
        → (body : List (BrokerCommand S)) × ((handle_client encode decode sender (some k) wires).0
            ≡ BrokerCommand.register sender ∷ body
              ++ closing k (handle_client encode decode sender (some k) wires).1)
          × All (IsOwn k) body
          × Because encode wires (handle_client encode decode sender (some k) wires).1
    unfolding handle_client
    handle_client_lem sender k wires =
        let looped = client_loop_lem k wires in
        (
          looped.body,
          ap (λ l. BrokerCommand.register sender ∷ l) looped.split,
          looped.own,
          looped.because,
        )
