-- ===== src/Srv/Lookup.antt =====
-- im_srv_lookup of srv.c: what it returns, whatever message the resolver delivers.
use imcore.Prelude.{ℕ, zero, suc, ◌-◌, ◌<◌, ◌≡◌, refl, arith}
use imcore.Prelude.{List, Option, none, some, ◌==◌, length, length-take_le}
use imcore.Prelude.{Ensures, >>=-Ensures, ok-Ensures, test-Ensures, ok, ◌>>=◌, ==_iff, sym}
use mathlib.Core.Path.{subst}
use imcore.Srv.Header.{netbuf_get_dnsquery_header}
use imcore.Srv.Message.{
  c_string, conclude, on_reply, get_questions, skip_records, netbuf_get_dnsquery_resourcerecord,
}
use imcore.Srv.Message.{fitted, take_answer, get_answers, read_message, im_srv_lookup, full_domain}
use imcore.Srv.Message.{DnsqueryResourcerecord, DnsqueryQuestion}

-- The answer was read in the message at some place, by the code's own reader: a record of the type SRV,
-- with its port, and its target cut to the buffer.
pub record IsRead (n fuel : ℕ) (buf : List ℕ) (r : List ℕ × ℕ) : Type 0 where
  pub offset : ℕ
  pub old : DnsqueryResourcerecord
  pub read : DnsqueryResourcerecord × ℕ
  pub target : List ℕ
  pub reads : netbuf_get_dnsquery_resourcerecord fuel buf offset old ≡ ok read
  pub service : read.0.type ≡ 33
  pub name : c_string read.0.rdata.target ≡ ok target
  pub answer : r ≡ (fitted n target, read.0.rdata.port)

abbrev AllRead : ℕ → ℕ → List ℕ → Option (List ℕ × ℕ) → Type 0
AllRead n fuel buf none = Unit {0}
AllRead n fuel buf (some r) = IsRead n fuel buf r

length-fitted : (n : ℕ) (s : List ℕ) → 0 < n → length (fitted n s) < n
unfolding fitted
length-fitted n s h = omega (arith, length-take_le (n - 1) s)

module _ (n fuel : ℕ) (buf : List ℕ) where
  abbrev Good : Option (List ℕ × ℕ) → Type 0
  Good = AllRead n fuel buf

  take_answer-AllRead :
      (offset : ℕ) (old : DnsqueryResourcerecord) (r : DnsqueryResourcerecord × ℕ)
      (set : Option (List ℕ × ℕ))
      → netbuf_get_dnsquery_resourcerecord fuel buf offset old ≡ ok r
      → Good set
      → Ensures (take_answer n r.0 set) Good
  unfolding take_answer
  take_answer-AllRead offset old r set e g =
      test-Ensures Good (r.0.type == 33) _ _
        (λ is_srv. >>=-Ensures Good (c_string r.0.rdata.target) _ λ t f.
          ok-Ensures Good (some (fitted n t, r.0.rdata.port)) (record {
            offset = offset;
            old = old;
            read = r;
            target = t;
            reads = e;
            service = (==_iff r.0.type 33).0 is_srv;
            name = f;
            answer = refl;
          }))
        (λ _. ok-Ensures Good set g)

  get_answers-AllRead :
      (count offset : ℕ) (rr : DnsqueryResourcerecord) (set : Option (List ℕ × ℕ))
      → Good set
      → Ensures (get_answers count n fuel buf offset rr set) (λ r. Good r.0)
  unfolding get_answers
  get_answers-AllRead zero offset rr set g = ok-Ensures (λ r. Good r.0) (set, offset, rr) g
  get_answers-AllRead (suc count) offset rr set g =
      >>=-Ensures (λ r. Good r.0) (netbuf_get_dnsquery_resourcerecord fuel buf offset rr) _
        λ r e.
          >>=-Ensures (λ r. Good r.0) (take_answer n r.0 set) _
            λ set' f.
              get_answers-AllRead count r.1 r.0 set'
                (take_answer-AllRead offset rr r set e g set' f)

-- What the lookup returns: 1 and an answer of the message, or 0, the domain itself and the port 5222.
pub data Outcome (domain : List ℕ) (n fuel : ℕ) (reply : Option (List ℕ)) (r : ℕ × List ℕ × ℕ)
    : Type 0 where
  found :
      (buf : List ℕ)
      → reply ≡ some buf
      → r.0 ≡ 1
      → IsRead n fuel buf (r.1, r.2)
      → Outcome domain n fuel reply r
  given_up : r ≡ (0, fitted n domain, 5222) → Outcome domain n fuel reply r

pub record Answers (domain : List ℕ) (n fuel : ℕ) (reply : Option (List ℕ)) (r : ℕ × List ℕ × ℕ)
    : Type 0 where
  pub fits : length r.1 < n
  pub outcome : Outcome domain n fuel reply r

conclude-none :
    (n fuel : ℕ) (domain : List ℕ) (reply : Option (List ℕ))
    → 0 < n
    → Answers domain n fuel reply (conclude n domain none)
unfolding conclude
conclude-none n fuel domain reply h = record {
  fits = length-fitted n domain h;
  outcome = given_up refl;
}

-- What the answers of a reply are concluded to.
conclude-some :
    (n fuel : ℕ) (domain buf : List ℕ) (set : Option (List ℕ × ℕ))
    → 0 < n
    → AllRead n fuel buf set
    → Answers domain n fuel (some buf) (conclude n domain set)
unfolding conclude
conclude-some n fuel domain buf none h g = conclude-none n fuel domain (some buf) h
conclude-some n fuel domain buf (some r) h g = record {
  fits = subst (λ (r : List ℕ × ℕ). length r.0 < n) (sym g.answer) (length-fitted n g.target h);
  outcome = found buf refl refl g;
}

module _ (question : DnsqueryQuestion) (rr : DnsqueryResourcerecord) where
  read_message-AllRead :
      (n fuel : ℕ) (buf : List ℕ)
      → Ensures (read_message question rr n fuel buf) (AllRead n fuel buf)
  unfolding read_message
  read_message-AllRead n fuel buf =
      >>=-Ensures (AllRead n fuel buf) (netbuf_get_dnsquery_header buf 0) _ λ r _.
        >>=-Ensures (AllRead n fuel buf) (get_questions r.0.qdcount fuel buf r.1 question) _ λ o _.
          >>=-Ensures (AllRead n fuel buf) (get_answers r.0.ancount n fuel buf o rr none) _ λ a e.
            >>=-Ensures (AllRead n fuel buf) (skip_records r.0.ancount fuel buf a.1 a.2) _ λ o' _.
              ok-Ensures (AllRead n fuel buf) a.0
                (get_answers-AllRead n fuel buf r.0.ancount o rr none tt a e)

  replied :
      (n fuel : ℕ) (domain : List ℕ) (reply : Option (List ℕ))
      → 0 < n
      → Ensures
          (on_reply question rr n fuel reply >>= λ set. ok (conclude n domain set))
          (Answers domain n fuel reply)
  unfolding on_reply
  replied n fuel domain none h =
      ok-Ensures (Answers domain n fuel none) (conclude n domain none)
        (conclude-none n fuel domain none h)
  replied n fuel domain (some buf) h =
      >>=-Ensures (Answers domain n fuel (some buf)) (read_message question rr n fuel buf) _
        λ set e.
          ok-Ensures (Answers domain n fuel (some buf)) (conclude n domain set)
            (conclude-some n fuel domain buf set h (read_message-AllRead n fuel buf set e))

  -- For a buffer of at least one byte, every result of the lookup is a target that fits the buffer with
  -- its NUL: with 1 it is the target and the port of a record of the type SRV that the reader of records
  -- finds in the reply, cut to the buffer, and with 0 it is the domain, cut to the buffer, and the port
  -- is 5222.
  pub im_srv_lookup-Answers :
      (res_query : List ℕ → Option (List ℕ)) (fuel : ℕ) (service proto domain : List ℕ) (n : ℕ)
      → 0 < n
      → Ensures
          (im_srv_lookup question rr res_query fuel service proto domain n)
          (Answers domain n fuel (res_query (full_domain service proto domain)))
  unfolding im_srv_lookup
  im_srv_lookup-Answers res_query fuel service proto domain n h =
      replied n fuel domain (res_query (full_domain service proto domain)) h
