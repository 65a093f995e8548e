-- ===== src/Proxy/Relay/Balanced.antt =====
-- The bytes of a channel: what comes in, what is held and what goes out.
use nuords_proxy.Prelude.{
  ℕ, zero, suc, ◌-◌, ◌≤◌, ◌≡◌, refl, ap, ◌∙◌, sym, false, Bool-cases, inl, inr, Option, none, some,
  [], ◌∷◌, ◌++◌, append-nil, append_assoc, length, Bytes, arith, length-take,
}
use nuords_proxy.Inet.Hosts.{is_error_fatal}
use nuords_proxy.Buffer.{Buffer, content}
use nuords_proxy.Buffer.Stream.{
  IsBuffer, received-IsBuffer, content-received, consumed-IsBuffer, content-consumed,
}
use nuords_proxy.Proxy.{Channel}
use nuords_proxy.Proxy.Relay.{
  Net, Traffic, Io, moved, broken, unless_fatal, took, gave, do_read, do_write, Alive, source_read,
  target_read, source_written, target_written,
}

-- What `recv` and `send` promise: no more than they are asked for.
pub record Obeys (net : Net) : Type 0 where
  pub recv_le : (s len : ℕ) (bytes : Bytes) → net.recv s len ≡ some bytes → length bytes ≤ len
  pub send_le : (s : ℕ) (bytes : Bytes) (n : ℕ) → net.send s bytes ≡ some n → n ≤ length bytes

-- What came in by one socket has gone out by the other, but for what the buffer holds.
pub record Balanced (chn : Channel) (t : Traffic) : Type 0 where
  pub source_buffer : IsBuffer chn.source_input
  pub target_buffer : IsBuffer chn.target_input
  pub forth : t.from_source ≡ t.to_target ++ content chn.source_input
  pub back : t.from_target ≡ t.to_source ++ content chn.target_input

-- After a read, and after a write.
abbrev Read : Buffer → Io → Type 0
Read b broken = Unit {0}
Read b (moved bytes b') = IsBuffer b' × (content b' ≡ content b ++ bytes)

abbrev Written : Buffer → Io → Type 0
Written b broken = Unit {0}
Written b (moved bytes b') = IsBuffer b' × (content b ≡ bytes ++ content b')

module _ (net : Net) (obeys : Obeys net) where
  unless_fatal-Read : (s : ℕ) (b : Buffer) → IsBuffer b → Read b (unless_fatal net s b)
  unfolding unless_fatal
  unless_fatal-Read s b w = elim (Bool-cases (is_error_fatal net.errno (net.last_error s) false)) [
    | inl fatal ↦ rw fatal tt
    | inr mild ↦ rw mild (w, sym (append-nil _))
  ]

  unless_fatal-Written : (s : ℕ) (b : Buffer) → IsBuffer b → Written b (unless_fatal net s b)
  unfolding unless_fatal
  unless_fatal-Written s b w =
      elim (Bool-cases (is_error_fatal net.errno (net.last_error s) false)) [
        | inl fatal ↦ rw fatal tt
        | inr mild ↦ rw mild (w, refl)
      ]

  took-Read :
      (s : ℕ) (b : Buffer) (res : Option Bytes)
      → net.recv s (b.size - b.pos) ≡ res
      → IsBuffer b
      → Read b (took net s b res)
  unfolding took
  took-Read s b none e w = unless_fatal-Read s b w
  took-Read s b (some []) e w = unless_fatal-Read s b w
  took-Read s b (some (x ∷ xs)) e w =
      let le = obeys.recv_le s (b.size - b.pos) (x ∷ xs) e in
      (received-IsBuffer (x ∷ xs) b w le, content-received (x ∷ xs) b w le)

  gave-Written :
      (s : ℕ) (b : Buffer) (res : Option ℕ)
      → net.send s (content b) ≡ res
      → IsBuffer b
      → Written b (gave net s b res)
  unfolding gave
  gave-Written s b none e w = unless_fatal-Written s b w
  gave-Written s b (some zero) e w = unless_fatal-Written s b w
  gave-Written s b (some (suc n)) e w =
      let le : suc n ≤ b.pos =
        omega (arith, obeys.send_le s (content b) (suc n) e, length-take b.pos b.bytes) in
      (consumed-IsBuffer (suc n) b w le, content-consumed (suc n) b w le)

  pub do_read-Read : (s : Option ℕ) (b : Buffer) → IsBuffer b → Read b (do_read net s b)
  unfolding do_read
  do_read-Read none b w = (w, sym (append-nil _))
  do_read-Read (some s) b w = took-Read s b (net.recv s (b.size - b.pos)) refl w

  pub do_write-Written : (s : Option ℕ) (b : Buffer) → IsBuffer b → Written b (do_write net s b)
  unfolding do_write
  do_write-Written none b w = (w, refl)
  do_write-Written (some s) b w = gave-Written s b (net.send s (content b)) refl w

-- A channel that is still there has kept its address, its route and its sockets.
abbrev pub Same : Channel → Channel → Type 0
Same chn c =
    (c.self ≡ chn.self) × (c.route ≡ chn.route) × (c.source ≡ chn.source) × (c.target ≡ chn.target)

abbrev pub Good : Channel → Alive → Type 0
Good chn none = Unit {0}
Good chn (some (c, t)) = Balanced c t × Same chn c

pub source_read-Good :
    (chn c : Channel) (t : Traffic) (io : Io)
    → Read c.source_input io
    → Balanced c t
    → Same chn c
    → Good chn (source_read c t io)
unfolding source_read
source_read-Good chn c t broken r w same = tt
source_read-Good chn c t (moved bytes b) (v, e) w same = (
  record {
    source_buffer = v;
    target_buffer = w.target_buffer;
    forth =
        ap (λ xs. xs ++ bytes) w.forth
        ∙ (append_assoc t.to_target (content c.source_input) bytes
            ∙ ap (λ xs. t.to_target ++ xs) (sym e));
    back = w.back;
  },
  same,
)

pub target_read-Good :
    (chn c : Channel) (t : Traffic) (io : Io)
    → Read c.target_input io
    → Balanced c t
    → Same chn c
    → Good chn (target_read c t io)
unfolding target_read
target_read-Good chn c t broken r w same = tt
target_read-Good chn c t (moved bytes b) (v, e) w same = (
  record {
    source_buffer = w.source_buffer;
    target_buffer = v;
    forth = w.forth;
    back =
        ap (λ xs. xs ++ bytes) w.back
        ∙ (append_assoc t.to_source (content c.target_input) bytes
            ∙ ap (λ xs. t.to_source ++ xs) (sym e));
  },
  same,
)

pub source_written-Good :
    (chn c : Channel) (t : Traffic) (io : Io)
    → Written c.target_input io
    → Balanced c t
    → Same chn c
    → Good chn (source_written c t io)
unfolding source_written
source_written-Good chn c t broken r w same = tt
source_written-Good chn c t (moved bytes b) (v, e) w same = (
  record {
    source_buffer = w.source_buffer;
    target_buffer = v;
    forth = w.forth;
    back =
        w.back
        ∙ (ap (λ xs. t.to_source ++ xs) e ∙ sym (append_assoc t.to_source bytes (content b)));
  },
  same,
)

pub target_written-Good :
    (chn c : Channel) (t : Traffic) (io : Io)
    → Written c.source_input io
    → Balanced c t
    → Same chn c
    → Good chn (target_written c t io)
unfolding target_written
target_written-Good chn c t broken r w same = tt
target_written-Good chn c t (moved bytes b) (v, e) w same = (
  record {
    source_buffer = v;
    target_buffer = w.target_buffer;
    forth =
        w.forth
        ∙ (ap (λ xs. t.to_target ++ xs) e ∙ sym (append_assoc t.to_target bytes (content b)));
    back = w.back;
  },
  same,
)
