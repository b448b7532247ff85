-- ===== src/Srv/Header.antt =====
-- netbuf_add_dnsquery_header and netbuf_get_dnsquery_header of srv.c.
use imcore.Prelude.{ℕ, ◌+◌, ◌*◌, ◌^◌, ◌≡◌, refl, ap, ◌∙◌, arith, bit_or}
use imcore.Prelude.{List, [], ◌∷◌, ◌++◌, length, length-append}
use imcore.Prelude.{Run, ok, ◌>>=◌, at, >>=-cong, >>=-assoc}
use imcore.Prelude.Bits.{field}
use imcore.Prelude.Bytes.{write_bytes, write_bytes_then}
use imcore.Srv.Numbers.{bytes16}
use imcore.Srv.Numbers.{netbuf_add_16bitnum, netbuf_get_16bitnum}

pub record DnsqueryHeader : Type 0 where
  pub id : ℕ
  pub qr : ℕ
  pub opcode : ℕ
  pub aa : ℕ
  pub tc : ℕ
  pub rd : ℕ
  pub ra : ℕ
  pub z : ℕ
  pub rcode : ℕ
  pub qdcount : ℕ
  pub ancount : ℕ
  pub nscount : ℕ
  pub arcount : ℕ

-- The two bytes of flags.
unfoldable pub flags1 : DnsqueryHeader → ℕ
flags1 header =
    bit_or
      (bit_or
        (bit_or (bit_or (field header.qr 0 1 * 2 ^ 7) (field header.opcode 0 4 * 2 ^ 3))
          (field header.aa 0 1 * 2 ^ 2))
        (field header.tc 0 1 * 2 ^ 1))
      (field header.rd 0 1)

unfoldable pub flags2 : DnsqueryHeader → ℕ
flags2 header =
    bit_or (bit_or (field header.ra 0 1 * 2 ^ 7) (field header.z 0 3 * 2 ^ 4))
      (field header.rcode 0 4)

unfoldable pub netbuf_add_dnsquery_header : List ℕ → ℕ → DnsqueryHeader → Run (List ℕ × ℕ)
netbuf_add_dnsquery_header buf offset header = do
  (buf1, o1) ← netbuf_add_16bitnum buf offset header.id
  buf2 ← write_bytes buf1 o1 (flags1 header ∷ flags2 header ∷ [])
  (buf3, o3) ← netbuf_add_16bitnum buf2 (o1 + 2) header.qdcount
  (buf4, o4) ← netbuf_add_16bitnum buf3 o3 header.ancount
  (buf5, o5) ← netbuf_add_16bitnum buf4 o4 header.nscount
  netbuf_add_16bitnum buf5 o5 header.arcount

unfoldable pub netbuf_get_dnsquery_header : List ℕ → ℕ → Run (DnsqueryHeader × ℕ)
netbuf_get_dnsquery_header buf offset = do
  (id, o1) ← netbuf_get_16bitnum buf offset
  p ← at buf o1
  p' ← at buf (o1 + 1)
  (qdcount, o3) ← netbuf_get_16bitnum buf (o1 + 2)
  (ancount, o4) ← netbuf_get_16bitnum buf o3
  (nscount, o5) ← netbuf_get_16bitnum buf o4
  (arcount, o6) ← netbuf_get_16bitnum buf o5
  ok (
    record {
      id = id;
      qr = field p 7 1;
      opcode = field p 3 4;
      aa = field p 2 1;
      tc = field p 1 1;
      rd = field p 0 1;
      ra = field p' 7 1;
      z = field p' 4 3;
      rcode = field p' 0 4;
      qdcount = qdcount;
      ancount = ancount;
      nscount = nscount;
      arcount = arcount;
    },
    o6,
  )

-- Pieces that are written one after the other.
unfoldable pub writes : List (List ℕ) → List ℕ → ℕ → Run (List ℕ × ℕ)
writes [] buf offset = ok (buf, offset)
writes (bs ∷ rest) buf offset =
    write_bytes buf offset bs >>= λ b. writes rest b (offset + length bs)

unfoldable pub concat : List (List ℕ) → List ℕ
concat [] = []
concat (bs ∷ rest) = bs ++ concat rest

abbrev ended : ℕ → List ℕ → Run (List ℕ × ℕ)
ended p buf = ok (buf, p)

pub writes-concat :
    (bss : List (List ℕ)) (buf : List ℕ) (offset : ℕ)
    → writes bss buf offset ≡ (
        write_bytes buf offset (concat bss) >>= λ (b : List ℕ).
        ok (b, offset + length (concat bss)))
unfolding writes concat
writes-concat [] buf offset = unfold write_bytes in ap (λ (n : ℕ). ended n buf) (omega arith)
writes-concat (bs ∷ rest) buf offset =
    >>=-cong (write_bytes buf offset bs) _ _
      (λ (b : List ℕ). writes-concat rest b (offset + length bs))
    ∙ write_bytes_then bs (concat rest) buf offset (offset + length bs) _ refl
    ∙ ap (λ (n : ℕ). write_bytes buf offset (bs ++ concat rest) >>= ended n) (far bs (concat rest))
  where
    far : (xs ys : List ℕ) → offset + length xs + length ys ≡ offset + length (xs ++ ys)
    far xs ys = omega (arith, length-append xs ys)

unfoldable pub header_bytes : DnsqueryHeader → List (List ℕ)
header_bytes h =
    bytes16 h.id
    ∷ (flags1 h ∷ flags2 h ∷ [])
    ∷ bytes16 h.qdcount
    ∷ bytes16 h.ancount
    ∷ bytes16 h.nscount
    ∷ bytes16 h.arcount
    ∷ []

pub add_header_writes :
    (buf : List ℕ) (offset : ℕ) (h : DnsqueryHeader)
    → netbuf_add_dnsquery_header buf offset h ≡ writes (header_bytes h) buf offset
unfolding netbuf_add_dnsquery_header netbuf_add_16bitnum writes header_bytes
add_header_writes buf offset h = simp >>=-assoc refl
