-- ===== src/Node/Console/Replay.antt =====
-- A line that was sent, and a request of the peer for its serial.
use tox_relayer.Prelude.{
  ℕ, ◌+◌, ◌≤◌, ◌<◌, ◌≡◌, refl, ap, ◌∙◌, inl, inr, true, false, ◌||◌, none, some, List, [], ◌∷◌,
  ◌++◌, arith, leb, ◌==◌, length,
}
use tox_relayer.Prelude.Int.{ℤ, pos}
use tox_relayer.Text.{codes, has_byte}
use tox_relayer.Telegram.Serial.{sn_next}
use tox_relayer.Telegram.Encode.{Encoded, encode_text, encode_cmd}
use tox_relayer.Queue.{Queue, enqueue}
use tox_relayer.Queue.Bag.{bag, Added}
use tox_relayer.Queue.Enqueue.{enqueue_lem, enqueue-IsQueue}
use tox_relayer.Telegram.Codec.Contract.{encode_cmd-decode}
use tox_relayer.Queue.Invariant.{IsConfig, IsQueue}
use tox_relayer.Text.Bytes.{take_all}
use tox_relayer.Database.{Row, new_row, clamp_sn, replay_entry}
use tox_relayer.Database.Fresh.{Unused}
use tox_relayer.Relay.{Relay, Outcome, receive, enqueue_called, wire_max, serve_replay}
use tox_relayer.Relay.Serving.{request, serve_replay-one, receive-request}
use tox_relayer.Friends.{
  Contact, contact_at, friend_number_valid, relay_peer_key, relay_fetch_range, as_stored,
}
use tox_relayer.Node.{Node, act, touch, with_queue}
use tox_relayer.Node.Messages.{World}
use tox_relayer.Node.Relaying.{
  relay_init, relay_enqueue, relay_tracker, relayed, carry, remember_all, queue_after,
}
use tox_relayer.Node.Console.{next_serial, outgoing, hand_over, send_line}
use tox_relayer.Node.Console.Sending.{wire, not_negative, length-encode_text, encode_text-stored}
use tox_relayer.Node.Console.Stored.{after_self, after_key, fetched}

module _ (w : World) (ok_c : IsConfig w.config) (wire_size k : ℕ) (line : List ℕ) (n : Node) where
  abbrev ch : ℤ
  ch = pos n.pre_friendnumber

  abbrev peer : Contact
  peer = contact_at n.contacts ch

  abbrev serial : ℤ
  serial = sn_next peer.send_sn

  abbrev row : Row
  row = new_row ch serial w.now (some n.self_public_key_str) (codes "outgoing") (some line)

  abbrev after : Node
  after = send_line w wire_size line n

  abbrev out : List ℕ
  out = (wire w ok_c wire_size k line n).out

  -- The request of the peer for the serial of the line, in a buffer of that size.
  abbrev pub asked : ℕ → Encoded
  asked size =
      encode_cmd (some size) (some n.self_public_key_str) (some peer.public_key_str) serial serial

  module _ (valid : friend_number_valid n.pre_friendnumber ≡ true)
      (good : (wire w ok_c wire_size k line n).rc ≡ pos k)
      (payload : (k == 0 || leb w.config.payload_max k) ≡ false) (short : length line ≤ 1022)
      (fits_wire : wire_size ≤ wire_max) (ready : n.db.ready ≡ true)
      (prepared : w.sqlite.prepared ≡ true) (bound : w.sqlite.bound ≡ true)
      (steps : w.sqlite.failing_step ≡ none)
      (unused : Unused ch (codes "outgoing") (clamp_sn serial) n.db.rows) where
    whole_out : length out ≡ k
    whole_out =
        length-encode_text wire_size k (some peer.public_key_str) (some n.self_public_key_str)
          (some line) serial w.now good

    served :
        (later : ℤ) (r : Relay)
        → let env = relay_init w.config w.sqlite later after in
          (rc : ℤ) × ((serve_replay env r ch
              (request n.self_public_key_str peer.public_key_str serial serial)).0.events
            ≡ r.events ++ (enqueue_called ch out rc ∷ []))
    unfolding relay_init
    served later r =
        let env = relay_init w.config w.sqlite later after in
        let s = as_stored (replay_entry row) in
        let same : encode_text (some wire_max) (some peer.public_key_str) env.self_public_key s.sn
              s.timestamp (some s.body)
            ≡ wire w ok_c wire_size k line n =
          ap
            (λ self.
              encode_text (some wire_max) (some peer.public_key_str) (some self) s.sn s.timestamp
                (some s.body))
            (after_self w ok_c wire_size k line n)
          ∙ encode_text-stored w ok_c wire_size k line n good short fits_wire in
        let sent =
          serve_replay-one env (relay_fetch_range w.sqlite after.db)
            (relay_enqueue w.config later after.queue) (relay_peer_key after.contacts) refl refl
            refl ch peer.public_key_str (after_key w ok_c wire_size k line n valid) s r
            (request n.self_public_key_str peer.public_key_str serial serial)
            (fetched w ok_c wire_size k line n ready prepared bound steps unused)
            (rw same (rw good (ground (arith, payload)))) in
        (
          relay_enqueue w.config later after.queue r.events ch out,
          sent
              ∙ ap
                  (λ (e : Encoded).
                    r.events
                    ++ (enqueue_called ch e.out
                          (relay_enqueue w.config later after.queue r.events ch e.out)
                        ∷ []))
                  same,
        )

    after_queue :
        peer.meta_chat_flag ≡ true
        → after.queue ≡ record (enqueue w.config n.queue ch (some out) k w.now).0 { events = [] }
    unfolding send_line next_serial hand_over outgoing touch act with_queue
    after_queue meta = rw (meta, good, not_negative k) refl

    queued :
        (q : Queue) (now : ℤ)
        → IsQueue w.config q
        → q.count < w.config.capacity
        → let q' = (enqueue w.config q ch (some out) k now).0 in
          IsQueue w.config q' × (q'.count ≡ q.count + 1) × Added q q' ch out
    queued q now v room =
        elim (enqueue_lem w.config ok_c q ch out k now v
          (rw (not_negative n.pre_friendnumber) payload) (omega (arith, whole_out))) [
            | inl (_, _, more, added) ↦ (
              enqueue-IsQueue w.config ok_c q ch (some out) k now v,
              more,
              λ f.
                  added f
                  ∙ ap (λ p. bag f q.ring + f ch p) (take_all out k (omega (arith, whole_out))),
            )
            | inr (full, _, _, _) ↦ absurd (omega (arith, full, room))
          ]

    carried :
        (later rc : ℤ) (r : Relay) (n' : Node)
        → r.events ≡ enqueue_called ch out rc ∷ []
        → (carry w.config w.sqlite later r n').queue
          ≡ record (enqueue w.config n'.queue ch (some out) (length out) later).0 { events = [] }
    unfolding carry remember_all queue_after with_queue
    carried later rc r n' e = rw e refl

    -- A line is sent to a peer that speaks metaCom, and later the peer asks for its serial: the queue has
    -- gained one telegram for the peer by the line, and by the request the very same bytes once more. The
    -- friend's number is in the range of the table, the line fits a telegram, the queue's messages and its
    -- record in the database, the channel has no sent record with that serial yet, SQLite works, the queue
    -- is well formed and has room for two, and the keys have no NUL.
    pub send_line-relayed :
        (later : ℤ) (size j : ℕ)
        → peer.meta_chat_flag ≡ true
        → (asked size).rc ≡ pos j
        → has_byte 0 n.self_public_key_str ≡ false
        → has_byte 0 peer.public_key_str ≡ false
        → IsQueue w.config n.queue
        → n.queue.count + 1 < w.config.capacity
        → let n' = send_line w wire_size line n in
          let n'' = (relayed w.config w.sqlite later ch (asked size).out n').0 in
          (bytes : List ℕ) × Added n.queue n'.queue ch bytes × Added n'.queue n''.queue ch bytes
    unfolding relayed relay_init
    send_line-relayed later size j meta asks self key v room =
        let first = queued n.queue w.now v (omega (arith, room)) in
        let second =
          queued after.queue later
            (rw (after_queue meta) (record {
              is_ring = first.0.is_ring;
              head_in = first.0.head_in;
              tail_in = first.0.tail_in;
            }))
            (rw (after_queue meta) (omega (arith, first.1, room))) in
        let start : Relay = record { trackers = relay_tracker after.trackers; events = [] } in
        let env = relay_init w.config w.sqlite later after in
        let (rc, events) = served later start in
        let came =
          receive-request env n.self_public_key_str peer.public_key_str (asked size).out start ch
            serial serial own (not_negative n.pre_friendnumber)
            (encode_cmd-decode size j n.self_public_key_str peer.public_key_str serial serial asks
              self key) in
        let gained =
          carried later rc (receive env start ch (some (asked size).out)).0 after
            (ap (λ (x : Relay × Outcome). x.0.events) came ∙ events) in
        (
          out,
          λ f. ap (λ q. bag f q.ring) (after_queue meta) ∙ first.2 f,
          λ f.
              ap (λ q. bag f q.ring) gained
              ∙ ap (λ m. bag f (enqueue w.config after.queue ch (some out) m later).0.ring)
                  whole_out
              ∙ second.2 f,
        )
      where
        own :
            (relay_init w.config w.sqlite later after).self_public_key ≡ some n.self_public_key_str
        own = ap some (after_self w ok_c wire_size k line n)
