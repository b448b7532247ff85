-- ===== src/Srv/Message.antt =====
-- Questions, records and im_srv_lookup of srv.c, as it is built where there is a resolver library.
-- `res_query` is a parameter: the buffer after a call that answers, or nothing. The names have room for
-- 1024 bytes, whose first contents are left to the caller.
use imcore.Prelude.{ℕ, zero, suc, ◌+◌, ◌-◌}
use imcore.Prelude.{List, [], ◌∷◌, ◌++◌, Option, none, some, true, false, ◌==◌, if◌then◌else◌, take}
use imcore.Prelude.{Run, ok, fault, out_of_bounds, ◌>>=◌}
use imcore.Prelude.Text.{codes}
use imcore.Srv.Numbers.{netbuf_add_16bitnum, netbuf_get_16bitnum, netbuf_get_32bitnum}
use imcore.Srv.Name.{netbuf_add_domain_name, netbuf_get_domain_name}
use imcore.Srv.Header.{netbuf_get_dnsquery_header}

pub record DnsqueryQuestion : Type 0 where
  pub qname : List ℕ
  pub qtype : ℕ
  pub qclass : ℕ

pub record DnsquerySrvrdata : Type 0 where
  pub priority : ℕ
  pub weight : ℕ
  pub port : ℕ
  pub target : List ℕ

pub record DnsqueryResourcerecord : Type 0 where
  pub name : List ℕ
  pub type : ℕ
  pub class : ℕ
  pub ttl : ℕ
  pub rdlength : ℕ
  pub rdata : DnsquerySrvrdata

-- The question's name as a text, without its NUL.
unfoldable pub netbuf_add_dnsquery_question : List ℕ → ℕ → DnsqueryQuestion → Run (List ℕ × ℕ)
netbuf_add_dnsquery_question buf offset question = do
  (buf1, o1) ← netbuf_add_domain_name buf offset question.qname
  (buf2, o2) ← netbuf_add_16bitnum buf1 o1 question.qtype
  netbuf_add_16bitnum buf2 o2 question.qclass

unfoldable pub netbuf_get_dnsquery_question :
    ℕ → List ℕ → ℕ → DnsqueryQuestion → Run (DnsqueryQuestion × ℕ)
netbuf_get_dnsquery_question fuel buf offset question = do
  (_, o1, qname) ← netbuf_get_domain_name fuel buf offset question.qname 1024
  (qtype, o2) ← netbuf_get_16bitnum buf o1
  (qclass, o3) ← netbuf_get_16bitnum buf o2
  ok (record { qname = qname; qtype = qtype; qclass = qclass }, o3)

unfoldable pub netbuf_get_dnsquery_srvrdata :
    ℕ → List ℕ → ℕ → DnsquerySrvrdata → Run (DnsquerySrvrdata × ℕ)
netbuf_get_dnsquery_srvrdata fuel buf offset srvrdata = do
  (priority, o1) ← netbuf_get_16bitnum buf offset
  (weight, o2) ← netbuf_get_16bitnum buf o1
  (port, o3) ← netbuf_get_16bitnum buf o2
  (_, o4, target) ← netbuf_get_domain_name fuel buf o3 srvrdata.target 1024
  ok (record { priority = priority; weight = weight; port = port; target = target }, o4)

-- `if (rr->type == 33)`: the data of an SRV record.
unfoldable pub get_rdata : ℕ → List ℕ → ℕ → ℕ → DnsquerySrvrdata → Run DnsquerySrvrdata
get_rdata fuel buf offset type rdata =
    if type == 33
    then (netbuf_get_dnsquery_srvrdata fuel buf offset rdata >>= λ r. ok r.0)
    else ok rdata

unfoldable pub netbuf_get_dnsquery_resourcerecord :
    ℕ → List ℕ → ℕ → DnsqueryResourcerecord → Run (DnsqueryResourcerecord × ℕ)
netbuf_get_dnsquery_resourcerecord fuel buf offset rr = do
  (_, o1, name) ← netbuf_get_domain_name fuel buf offset rr.name 1024
  (type, o2) ← netbuf_get_16bitnum buf o1
  (class, o3) ← netbuf_get_16bitnum buf o2
  (ttl, o4) ← netbuf_get_32bitnum buf o3
  (rdlength, o5) ← netbuf_get_16bitnum buf o4
  rdata ← get_rdata fuel buf o5 type rr.rdata
  ok (
    record {
      name = name;
      type = type;
      class = class;
      ttl = ttl;
      rdlength = rdlength;
      rdata = rdata;
    },
    o5 + rdlength,
  )

-- `for (i = 0; i < header.qdcount; i++)`
unfoldable pub get_questions : ℕ → ℕ → List ℕ → ℕ → DnsqueryQuestion → Run ℕ
get_questions zero fuel buf offset question = ok offset
get_questions (suc count) fuel buf offset question = do
  (question', o) ← netbuf_get_dnsquery_question fuel buf offset question
  get_questions count fuel buf o question'

-- A C string in a buffer: up to its NUL.
unfoldable pub c_string : List ℕ → Run (List ℕ)
c_string [] = fault out_of_bounds
c_string (c ∷ cs) = elim (c == 0) [ true ↦ ok [] | false ↦ c_string cs >>= λ t. ok (c ∷ t) ]

-- `snprintf(resulttarget, resulttargetlength, "%s", s)`, for a length that is not 0.
unfoldable pub fitted : ℕ → List ℕ → List ℕ
fitted resulttargetlength s = take (resulttargetlength - 1) s

-- What the lookup has set: the target and the port.
unfoldable pub take_answer :
    ℕ → DnsqueryResourcerecord → Option (List ℕ × ℕ) → Run (Option (List ℕ × ℕ))
take_answer resulttargetlength rr set =
    if rr.type == 33
    then (c_string rr.rdata.target >>= λ t. ok (some (fitted resulttargetlength t, rr.rdata.port)))
    else ok set

unfoldable pub get_answers :
    ℕ
    → ℕ
    → ℕ
    → List ℕ
    → ℕ
    → DnsqueryResourcerecord
    → Option (List ℕ × ℕ)
    → Run (Option (List ℕ × ℕ) × ℕ × DnsqueryResourcerecord)
get_answers zero resulttargetlength fuel buf offset rr set = ok (set, offset, rr)
get_answers (suc count) resulttargetlength fuel buf offset rr set = do
  (rr', o) ← netbuf_get_dnsquery_resourcerecord fuel buf offset rr
  set' ← take_answer resulttargetlength rr' set
  get_answers count resulttargetlength fuel buf o rr' set'

-- The records behind the answers, as many once more.
unfoldable pub skip_records : ℕ → ℕ → List ℕ → ℕ → DnsqueryResourcerecord → Run ℕ
skip_records zero fuel buf offset rr = ok offset
skip_records (suc count) fuel buf offset rr = do
  (rr', o) ← netbuf_get_dnsquery_resourcerecord fuel buf offset rr
  skip_records count fuel buf o rr'

unfoldable pub full_domain : List ℕ → List ℕ → List ℕ → List ℕ
full_domain service proto domain =
    fitted 2048 (codes "_" ++ (service ++ (codes "._" ++ (proto ++ (codes "." ++ domain)))))

-- `if (!set)`
unfoldable pub conclude : ℕ → List ℕ → Option (List ℕ × ℕ) → ℕ × List ℕ × ℕ
conclude resulttargetlength domain none = (0, fitted resulttargetlength domain, 5222)
conclude resulttargetlength domain (some r) = (1, r.0, r.1)

module _ (question : DnsqueryQuestion) (rr : DnsqueryResourcerecord) where
  unfoldable pub read_message : ℕ → ℕ → List ℕ → Run (Option (List ℕ × ℕ))
  read_message resulttargetlength fuel buf = do
    (header, o1) ← netbuf_get_dnsquery_header buf 0
    o2 ← get_questions header.qdcount fuel buf o1 question
    (set, o3, rr') ← get_answers header.ancount resulttargetlength fuel buf o2 rr none
    o4 ← skip_records header.ancount fuel buf o3 rr'
    ok set

  -- The test of `len`.
  unfoldable pub on_reply : ℕ → ℕ → Option (List ℕ) → Run (Option (List ℕ × ℕ))
  on_reply resulttargetlength fuel none = ok none
  on_reply resulttargetlength fuel (some buf) = read_message resulttargetlength fuel buf

  -- The answer, the target and the port.
  unfoldable pub im_srv_lookup :
      (List ℕ → Option (List ℕ)) → ℕ → List ℕ → List ℕ → List ℕ → ℕ → Run (ℕ × List ℕ × ℕ)
  im_srv_lookup res_query fuel service proto domain resulttargetlength = do
    set ← on_reply resulttargetlength fuel (res_query (full_domain service proto domain))
    ok (conclude resulttargetlength domain set)
