-- ===== src/Srv/Packed.antt =====
-- The header of srv.c as it stands in a message: writing and reading it.
use imcore.Prelude.{ℕ, zero, suc, ◌+◌, ◌*◌, ◌^◌, ◌≤◌, ◌<◌, ◌≡◌, refl, sym, ◌∙◌, arith, bit_or}
use imcore.Prelude.{List, [], ◌∷◌, ◌++◌, length}
use imcore.Prelude.{ok, ◌>>=◌, at}
use imcore.Prelude.Bits.{field, bit_or_shift}
use imcore.Prelude.Bytes.{write_bytes-append, split_at}
use imcore.Srv.Numbers.{netbuf_get_16bitnum}
use imcore.Srv.Header.{DnsqueryHeader, flags1, flags2, header_bytes, concat, writes-concat}
use imcore.Srv.Header.{add_header_writes, netbuf_add_dnsquery_header, netbuf_get_dnsquery_header}

-- Reads behind the first bytes of a buffer.
pub at_skip :
    (pre xs : List ℕ) (i k c : ℕ) → i ≡ length pre + k → at xs k ≡ ok c → at (pre ++ xs) i ≡ ok c
at_skip [] xs i k c e r = let f : i ≡ k = omega arith in rw f r
at_skip (x ∷ pre) xs zero k c e r = absurd (omega arith)
at_skip (x ∷ pre) xs (suc i) k c e r = at_skip pre xs i k c (omega arith) r

pub get16_skip :
    (pre xs : List ℕ) (i k hi lo : ℕ)
    → i ≡ length pre + k
    → at xs k ≡ ok hi
    → at xs (k + 1) ≡ ok lo
    → lo < 256
    → netbuf_get_16bitnum (pre ++ xs) i ≡ ok (hi * 256 + lo, i + 2)
unfolding netbuf_get_16bitnum
get16_skip pre xs i k hi lo e r s h =
    rw
      (
        at_skip pre xs i k hi e r,
        at_skip pre xs (i + 1) (k + 1) lo (omega arith) s,
        bit_or_shift 8 hi lo h,
      )
      refl

-- A header whose fields fit their bits.
pub record IsHeader (h : DnsqueryHeader) : Type 0 where
  pub id : h.id < 2 ^ 16
  pub qr : h.qr < 2
  pub opcode : h.opcode < 16
  pub aa : h.aa < 2
  pub tc : h.tc < 2
  pub rd : h.rd < 2
  pub ra : h.ra < 2
  pub z : h.z < 8
  pub rcode : h.rcode < 16
  pub qdcount : h.qdcount < 2 ^ 16
  pub ancount : h.ancount < 2 ^ 16
  pub nscount : h.nscount < 2 ^ 16
  pub arcount : h.arcount < 2 ^ 16

-- `(a << k) | b`, where the two are digits of a number that is shifted itself.
or_digit :
    (k j x b : ℕ) (y : ℕ)
    → b * 2 ^ j < 2 ^ k
    → x * 2 ^ k + b * 2 ^ j ≡ y
    → bit_or (x * 2 ^ k) (b * 2 ^ j) ≡ y
or_digit k j x b y h e = bit_or_shift k x (b * 2 ^ j) h ∙ e

flags1_sum :
    (qr opcode aa tc rd : ℕ)
    → qr < 2
    → opcode < 16
    → aa < 2
    → tc < 2
    → rd < 2
    → bit_or
        (bit_or
          (bit_or (bit_or (field qr 0 1 * 2 ^ 7) (field opcode 0 4 * 2 ^ 3)) (field aa 0 1 * 2 ^ 2))
          (field tc 0 1 * 2 ^ 1))
        (field rd 0 1)
      ≡ qr * 128 + opcode * 8 + aa * 4 + tc * 2 + rd
flags1_sum qr opcode aa tc rd h1 h2 h3 h4 h5 =
    rw
      (
        or_digit 7 3 (field qr 0 1) (field opcode 0 4) ((qr * 16 + opcode) * 2 ^ 3) (omega arith)
            (omega arith),
        or_digit 3 2 (qr * 16 + opcode) (field aa 0 1) ((qr * 32 + opcode * 2 + aa) * 2 ^ 2)
            (omega arith) (omega arith),
        or_digit 2 1 (qr * 32 + opcode * 2 + aa) (field tc 0 1)
            ((qr * 64 + opcode * 4 + aa * 2 + tc) * 2 ^ 1) (omega arith) (omega arith),
        bit_or_shift 1 (qr * 64 + opcode * 4 + aa * 2 + tc) (field rd 0 1) (omega arith),
      )
      (omega arith)

flags2_sum :
    (ra z rcode : ℕ)
    → ra < 2
    → z < 8
    → rcode < 16
    → bit_or (bit_or (field ra 0 1 * 2 ^ 7) (field z 0 3 * 2 ^ 4)) (field rcode 0 4)
      ≡ ra * 128 + z * 16 + rcode
flags2_sum ra z rcode h1 h2 h3 =
    rw
      (
        or_digit 7 4 (field ra 0 1) (field z 0 3) ((ra * 8 + z) * 2 ^ 4) (omega arith)
            (omega arith),
        bit_or_shift 4 (ra * 8 + z) (field rcode 0 4) (omega arith),
      )
      (omega arith)

word16 : (n : ℕ) → n < 2 ^ 16 → field n 8 8 * 256 + field n 0 8 ≡ n
word16 n h = omega arith

-- A header that stands in a message is read as it was written.
get_header-append :
    (h : DnsqueryHeader) (pre post : List ℕ) (offset : ℕ)
    → offset ≡ length pre
    → IsHeader h
    → netbuf_get_dnsquery_header (pre ++ (concat (header_bytes h) ++ post)) offset
      ≡ ok (h, offset + 12)
unfolding netbuf_get_dnsquery_header header_bytes concat flags1 flags2
get_header-append h pre post offset p v =
    rw
      (
        get16_skip pre _ (offset) 0 (field h.id 8 8) (field h.id 0 8) (omega arith) refl refl
            (omega arith),
        at_skip pre _ (offset + 2) 2 (flags1 h) (omega arith) refl,
        at_skip pre _ (offset + 2 + 1) 3 (flags2 h) (omega arith) refl,
        get16_skip pre _ (offset + 2 + 2) 4 (field h.qdcount 8 8) (field h.qdcount 0 8)
            (omega arith) refl refl (omega arith),
        get16_skip pre _ (offset + 2 + 2 + 2) 6 (field h.ancount 8 8) (field h.ancount 0 8)
            (omega arith) refl refl (omega arith),
        get16_skip pre _ (offset + 2 + 2 + 2 + 2) 8 (field h.nscount 8 8) (field h.nscount 0 8)
            (omega arith) refl refl (omega arith),
        get16_skip pre _ (offset + 2 + 2 + 2 + 2 + 2) 10 (field h.arcount 8 8) (field h.arcount 0 8)
            (omega arith) refl refl (omega arith),
      )
      (ground (
        arith,
        flags1_sum h.qr h.opcode h.aa h.tc h.rd v.qr v.opcode v.aa v.tc v.rd,
        flags2_sum h.ra h.z h.rcode v.ra v.z v.rcode,
      ))

-- A header whose fields fit their bits is read back from the message that it is written to; the
-- reader leaves the offset behind its twelve bytes.
pub get_dnsquery_header-add_dnsquery_header :
    (buf : List ℕ) (offset : ℕ) (h : DnsqueryHeader)
    → offset + 12 ≤ length buf
    → IsHeader h
    → (netbuf_add_dnsquery_header buf offset h >>= λ r. netbuf_get_dnsquery_header r.0 offset)
      ≡ ok (h, offset + 12)
get_dnsquery_header-add_dnsquery_header buf offset h room v =
    let (pre, old, post, e, p, o) = split_at buf offset 12 room in
    rw
      (
        add_header_writes buf offset h,
        writes-concat (header_bytes h) buf offset,
        e,
        write_bytes-append (concat (header_bytes h)) pre old post offset (sym p)
            (unfold concat header_bytes in o),
        get_header-append h pre post offset (sym p) v,
      )
      (unfold concat header_bytes in refl)
