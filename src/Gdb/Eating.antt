-- ===== src/Gdb/Eating.antt =====
-- What `eat_ack` and `eat_packet` take from the buffer.
use ocdscope.Prelude.{
  ℕ, ◌+◌, ◌≡◌, refl, sym, ap, ◌∙◌, ◌⊎◌, inl, inr, none, some, [], ◌∷◌, ◌++◌, append_assoc, arith,
  ◌==◌, length, length-append, drop, drop-length_append, ok, err, panic, slice_from,
  slice_from_in_range, Lacks, ==_iff, Bool-cases,
}
use ocdscope.Text.{Bytes}
use ocdscope.Gdb.Packet.{GdbRemoteError, Result, checksum, read_checksum, parse_gdb_packet}
use ocdscope.Gdb.PacketLaws.{
  parse_gdb_packet_sound, parse_gdb_packet-ne-panic, parse_gdb_packet_complete,
}
use ocdscope.Gdb.Remote.{
  GdbRemote, eat_packet, eat_ack, eat_ack_from, attempt, after_ack, stamped, ack, packet,
}

-- The bytes of a packet with the two checksum digits `h` and `l`.
abbrev pub framed : Bytes → ℕ → ℕ → Bytes → Bytes
framed d h l rest = b'$' ∷ d ++ b'#' ∷ h ∷ l ∷ rest

-- `d` can stand in a packet whose checksum digits are `h` and `l`.
abbrev pub Checked : Bytes → ℕ → ℕ → Type 0
Checked d h l = Lacks b'#' d × (read_checksum (h ∷ l ∷ []) ≡ ok (checksum d))

slice_from-framed :
    (d : Bytes) (h l : ℕ) (rest : Bytes)
    → slice_from {E = GdbRemoteError} (length d + 4) (framed d h l rest) ≡ ok rest
slice_from-framed d h l rest =
    let whole : (b'$' ∷ d ++ b'#' ∷ h ∷ l ∷ []) ++ rest ≡ framed d h l rest =
      append_assoc (b'$' ∷ d) (b'#' ∷ h ∷ l ∷ []) rest in
    let size : length (b'$' ∷ d ++ b'#' ∷ h ∷ l ∷ []) ≡ length d + 4 =
      omega (arith, length-append d (b'#' ∷ h ∷ l ∷ [])) in
    slice_from_in_range (length d + 4) (framed d h l rest)
      (omega (arith, length-append d (b'#' ∷ h ∷ l ∷ rest)))
    ∙ ap ok (
        ap (λ n. drop n (framed d h l rest)) (sym size)
        ∙ ap (drop (length (b'$' ∷ d ++ b'#' ∷ h ∷ l ∷ []))) (sym whole)
        ∙ drop-length_append (b'$' ∷ d ++ b'#' ∷ h ∷ l ∷ []) rest)

-- A packet at the front of the buffer is eaten whole, and nothing behind it is.
pub eat_packet-framed :
    (g : GdbRemote) (d : Bytes) (h l : ℕ) (rest : Bytes)
    → g.data_buffer ≡ framed d h l rest
    → Checked d h l
    → eat_packet g ≡ ok (d, record g { data_buffer = rest })
unfolding eat_packet
eat_packet-framed g d h l rest e (lacks, digits) =
    simp (e, parse_gdb_packet_complete d rest h l lacks digits, slice_from-framed)

-- `eat_packet` fails and takes nothing, or it takes exactly one packet.
pub eat_packet-cases :
    (g : GdbRemote)
    → ((e : GdbRemoteError) × (eat_packet g ≡ err e))
      ⊎ ((d : Bytes) × (h : ℕ) × (l : ℕ) × (rest : Bytes) × (eat_packet g
            ≡ ok (d, record g { data_buffer = rest }))
          × (g.data_buffer ≡ framed d h l rest)
          × Checked d h l)
eat_packet-cases g = go (parse_gdb_packet g.data_buffer) refl
  where
    go :
        (r : Result Bytes)
        → parse_gdb_packet g.data_buffer ≡ r
        → ((e : GdbRemoteError) × (eat_packet g ≡ err e))
          ⊎ ((d : Bytes) × (h : ℕ) × (l : ℕ) × (rest : Bytes) × (eat_packet g
                ≡ ok (d, record g { data_buffer = rest }))
              × (g.data_buffer ≡ framed d h l rest)
              × Checked d h l)
    go (ok d) p =
        let (h, l, rest, spelled, lacks, digits) = parse_gdb_packet_sound g.data_buffer p in
        inr (
          d,
          h,
          l,
          rest,
          eat_packet-framed g d h l rest spelled (lacks, digits),
          spelled,
          (lacks, digits),
        )
    go (err e) p = inl (e, unfold eat_packet in rw p)
    go panic p = absurd (parse_gdb_packet-ne-panic g.data_buffer p)

-- One round of `read_response` on the buffer: nothing to take, an ACK, or one packet.
pub data Taken (g : GdbRemote) : Type 0 where
  nothing : attempt g ≡ none → Taken g
  took_ack :
      (s : Bytes)
      → g.data_buffer ≡ b'+' ∷ s
      → attempt g ≡ some (record g { data_buffer = s }, stamped g.last_rx_packet_timestamp ack)
      → Taken g
  took_packet :
      (d : Bytes) (h l : ℕ) (rest : Bytes)
      → g.data_buffer ≡ framed d h l rest
      → Checked d h l
      → attempt g
        ≡ some (record g { data_buffer = rest }, stamped g.last_rx_packet_timestamp (packet d))
      → Taken g

eat_ack_from-cases :
    (g : GdbRemote) (b : Bytes)
    → ((s : Bytes) × (b ≡ b'+' ∷ s) × (eat_ack_from g b ≡ some (record g { data_buffer = s })))
      ⊎ (eat_ack_from g b ≡ none)
unfolding eat_ack_from
eat_ack_from-cases g [] = inr refl
eat_ack_from-cases g (c ∷ s) = elim (Bool-cases (c == b'+')) [
  | inl e ↦ inl (s, ap (λ x. x ∷ s) ((==_iff c b'+').0 e), rw e)
  | inr e ↦ inr (rw e)
]

pub attempt-Taken : (g : GdbRemote) → Taken g
unfolding attempt eat_ack
attempt-Taken g = elim (eat_ack_from-cases g g.data_buffer) [
  | inl (s, e, p) ↦ took_ack s e (rw p)
  | inr p ↦ elim (eat_packet-cases g) [
    | inl (x, q) ↦ nothing (rw (p, after_ack, q))
    | inr (d, h, l, rest, q, e, c) ↦ took_packet d h l rest e c (rw (p, after_ack, q))
  ]
]

-- A buffer that begins with an ACK yields it.
pub attempt-ack :
    (g : GdbRemote) (s : Bytes)
    → g.data_buffer ≡ b'+' ∷ s
    → attempt g ≡ some (record g { data_buffer = s }, stamped g.last_rx_packet_timestamp ack)
unfolding attempt eat_ack eat_ack_from
attempt-ack g s e = simp e

-- A buffer that begins with a packet yields it.
pub attempt-framed :
    (g : GdbRemote) (d : Bytes) (h l : ℕ) (rest : Bytes)
    → g.data_buffer ≡ framed d h l rest
    → Checked d h l
    → attempt g
      ≡ some (record g { data_buffer = rest }, stamped g.last_rx_packet_timestamp (packet d))
unfolding attempt eat_ack
attempt-framed g d h l rest e c =
    let no_ack : eat_ack_from g g.data_buffer ≡ none =
      ap (eat_ack_from g) e ∙ unfold eat_ack_from in refl in
    rw (no_ack, after_ack, eat_packet-framed g d h l rest e c)

-- Two texts of packets that agree have the same contents and the same rest.
pub framed-injective :
    (d d' : Bytes) (h l h' l' : ℕ) (r r' : Bytes)
    → Lacks b'#' d
    → Lacks b'#' d'
    → framed d h l r ≡ framed d' h' l' r'
    → (d ≡ d') × (h ≡ h') × (l ≡ l') × (r ≡ r')
framed-injective [] [] h l h' l' r r' p q e = (refl, cc, cc, cc)
framed-injective [] (c ∷ d') h l h' l' r r' p (q, _) e = absurd (q (cc))
framed-injective (c ∷ d) [] h l h' l' r r' (p, _) q e = absurd (p (cc))
framed-injective (c ∷ d) (c' ∷ d') h l h' l' r r' (_, p) (_, q) e =
    let (same, x, y, z) = framed-injective d d' h l h' l' r r' p q (cc) in (cc, x, y, z)

-- Bytes behind a packet.
pub framed-append :
    (d : Bytes) (x y : ℕ) (rest t : Bytes) → framed d x y rest ++ t ≡ framed d x y (rest ++ t)
framed-append d x y rest t = append_assoc (b'$' ∷ d) (b'#' ∷ x ∷ y ∷ rest) t
