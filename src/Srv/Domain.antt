-- ===== src/Srv/Domain.antt =====
-- netbuf_get_domain_name of srv.c: the round trip with netbuf_add_domain_name, and its faults.
use imcore.Prelude.{ℕ, zero, suc, ◌+◌, ◌≤◌, ◌<◌, ◌≡◌, refl, sym, ◌∙◌, arith}
use imcore.Prelude.{List, [], ◌∷◌, ◌++◌, append_assoc, true, All, length, length-append}
use imcore.Prelude.{Run, ok, fault, out_of_bounds, out_of_fuel, ◌>>=◌, >>=-assoc, at}
use imcore.Prelude.Bytes.{
  write_bytes, write_bytes_then, write_bytes-append, write_bytes-short, split_at,
}
use imcore.Srv.Name.{
  measure, measure_step, pointer, is_pointer, finish_name, netbuf_add_domain_name,
  netbuf_get_domain_name,
}
use imcore.Srv.Labels.{IsLabel, joined, wire, label_bytes, add_domain_name_wire}
use imcore.Srv.Copied.{copied, go_on, copy-joined, over_first}
use imcore.Srv.Measured.{measure-wire}

abbrev named : ℕ → List ℕ → Run (ℕ × ℕ × List ℕ)
named offset namebuf = ok (0, offset, namebuf)

finish_copied :
    (m : Run (List ℕ)) (p p2 : ℕ)
    → (m >>= copied p p2 >>= finish_name)
      ≡ (m >>= λ (b : List ℕ). write_bytes b p2 (0 ∷ []) >>= named (p + 1))
unfolding finish_name
finish_copied m p p2 = >>=-assoc m _ _

over_text :
    (bs : List ℕ) (y : ℕ) (ys : List ℕ)
    → write_bytes (0 ∷ ys) 0 (bs ++ 0 ∷ []) ≡ write_bytes (y ∷ ys) 0 (bs ++ 0 ∷ [])
over_text [] y ys = over_first 0 [] y ys
over_text (b ∷ bs) y ys = over_first b (bs ++ 0 ∷ []) y ys

get_measured :
    (fuel : ℕ) (buf : List ℕ) (p : ℕ) (y : ℕ) (ys : List ℕ) (namebuflen len : ℕ)
    → measure fuel buf p 0 ≡ ok len
    → len ≤ namebuflen
    → netbuf_get_domain_name fuel buf p (y ∷ ys) namebuflen
      ≡ (go_on fuel buf p 0 (0 ∷ ys) >>= finish_name)
unfolding netbuf_get_domain_name write_bytes
get_measured fuel buf p y ys namebuflen len e h = ground (arith, e)

-- What netbuf_get_domain_name does with the labels of a name: it writes the whole name and its NUL,
-- once the labels' own bytes have been found to fit.
pub get_domain_name_wire :
    (ls : List (List ℕ)) (fuel : ℕ) (pre post : List ℕ) (p : ℕ) (y : ℕ) (ys : List ℕ)
    (namebuflen : ℕ)
    → All IsLabel ls
    → length ls < fuel
    → p ≡ length pre
    → label_bytes ls ≤ namebuflen
    → netbuf_get_domain_name fuel (pre ++ (wire ls ++ 0 ∷ post)) p (y ∷ ys) namebuflen
      ≡ (write_bytes (y ∷ ys) 0 (joined ls ++ 0 ∷ []) >>= named (p + length (wire ls) + 1))
get_domain_name_wire ls fuel pre post p y ys namebuflen h f e k =
    get_measured fuel _ p y ys namebuflen (0 + label_bytes ls)
      (measure-wire ls fuel pre post p 0 h f e) (omega arith)
    ∙ rw (copy-joined ls fuel pre post p ys h f e) (
        finish_copied (write_bytes (0 ∷ ys) 0 (joined ls)) (p + length (wire ls))
          (length (joined ls)))
    ∙ write_bytes_then (joined ls) (0 ∷ []) (0 ∷ ys) 0 (length (joined ls))
        (named (p + length (wire ls) + 1)) (omega arith)
    ∙ rw (over_text (joined ls) y ys) refl

-- A name of labels that netbuf_add_domain_name writes, with room for it in the message, is read back by
-- netbuf_get_domain_name into a buffer with room for it and a NUL; both leave the offset behind it.
pub get_domain_name-add_domain_name :
    (ls : List (List ℕ)) (buf : List ℕ) (offset fuel : ℕ) (old rest : List ℕ) (namebuflen : ℕ)
    → All IsLabel ls
    → offset + length (wire ls) + 1 ≤ length buf
    → length ls < fuel
    → length old ≡ length (joined ls) + 1
    → label_bytes ls ≤ namebuflen
    → (netbuf_add_domain_name buf offset (joined ls) >>= λ r.
        netbuf_get_domain_name fuel r.0 offset (old ++ rest) namebuflen)
      ≡ ok (0, offset + length (wire ls) + 1, (joined ls ++ 0 ∷ []) ++ rest)
get_domain_name-add_domain_name ls buf offset fuel [] rest namebuflen h room f o k =
    absurd (omega arith)
get_domain_name-add_domain_name ls buf offset fuel (y ∷ old) rest namebuflen h room f o k =
    let (pre, mid, post, e, p, m) =
      split_at buf offset (length (wire ls ++ 0 ∷ []))
        (omega (arith, length-append (wire ls) (0 ∷ []))) in
    rw
      (
        add_domain_name_wire buf offset ls h,
        e,
        write_bytes-append (wire ls ++ 0 ∷ []) pre mid post offset (sym p) m,
        append_assoc (wire ls) (0 ∷ []) post,
        get_domain_name_wire ls fuel pre post offset y (old ++ rest) namebuflen h f (sym p) k,
        write_bytes-append (joined ls ++ 0 ∷ []) [] (y ∷ old) rest 0 refl
            (omega (arith, length-append (joined ls) (0 ∷ []))),
      )
      refl

-- The length check counts neither the dots nor the NUL: labels whose bytes fit, but not the whole name,
-- are written past the end of the buffer.
pub get_domain_name_overflows :
    (ls : List (List ℕ)) (fuel : ℕ) (pre post : List ℕ) (namebuf : List ℕ)
    → All IsLabel ls
    → length ls < fuel
    → 0 < length namebuf
    → label_bytes ls ≤ length namebuf
    → length namebuf ≤ length (joined ls)
    → netbuf_get_domain_name fuel
        (pre ++ (wire ls ++ 0 ∷ post))
        (length pre)
        namebuf
        (length namebuf)
      ≡ fault out_of_bounds
get_domain_name_overflows ls fuel pre post [] h f n k o = absurd (omega arith)
get_domain_name_overflows ls fuel pre post (y ∷ ys) h f n k o =
    get_domain_name_wire ls fuel pre post (length pre) y ys (length (y ∷ ys)) h f refl k
    ∙ rw
        (write_bytes-short (joined ls ++ 0 ∷ []) (y ∷ ys) 0
          (omega (arith, length-append (joined ls) (0 ∷ [])))
          (omega (arith, length-append (joined ls) (0 ∷ []))))
        refl

measure_loops :
    (fuel : ℕ) (buf : List ℕ) (offset c c' len : ℕ)
    → at buf offset ≡ ok c
    → at buf (offset + 1) ≡ ok c'
    → is_pointer c ≡ true
    → pointer c c' ≡ offset
    → measure fuel buf offset len ≡ fault out_of_fuel
unfolding measure measure_step
measure_loops zero buf offset c c' len a b i e = refl
measure_loops (suc fuel) buf offset c c' len a b i e =
    ground (arith, a, b, e, measure_loops fuel buf offset c c' len a b i e)

-- A pointer that leads to itself is followed for ever.
pub get_domain_name_loops :
    (fuel : ℕ) (buf : List ℕ) (offset c c' : ℕ) (y : ℕ) (ys : List ℕ) (namebuflen : ℕ)
    → at buf offset ≡ ok c
    → at buf (offset + 1) ≡ ok c'
    → is_pointer c ≡ true
    → pointer c c' ≡ offset
    → netbuf_get_domain_name fuel buf offset (y ∷ ys) namebuflen ≡ fault out_of_fuel
unfolding netbuf_get_domain_name write_bytes
get_domain_name_loops fuel buf offset c c' y ys namebuflen a b i e =
    rw (measure_loops fuel buf offset c c' 0 a b i e) (ground arith)
