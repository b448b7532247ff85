-- ===== src/Srv/Runs.antt =====
-- Messages of srv.c at concrete bytes: the theorems' instances.
use imcore.Prelude.{ℕ, ◌+◌, ◌≡◌, refl, arith, List, [], ◌∷◌, ◌++◌, some, replicate, length}
use imcore.Prelude.{ok, fault, out_of_bounds, out_of_fuel, ◌>>=◌}
use imcore.Prelude.Text.{codes}
use imcore.Prelude.Bytes.{write_bytes}
use imcore.Srv.Numbers.{netbuf_get_32bitnum, netbuf_get_16bitnum}
use imcore.Srv.Name.{
  measure, measure_step, pointer, copy_bytes, copy_pointer, copy_label, copy_name, finish_name,
}
use imcore.Srv.Name.{
  netbuf_add_domain_name, netbuf_get_domain_name, calc_domain_name_size, size_loop, size_step,
}
use imcore.Srv.Labels.{joined, dotted, wire, label_bytes}
use imcore.Srv.Domain.{
  get_domain_name-add_domain_name, get_domain_name_overflows, get_domain_name_loops,
}
use imcore.Srv.Header.{DnsqueryHeader, netbuf_add_dnsquery_header, netbuf_get_dnsquery_header}
use imcore.Srv.Packed.{get_dnsquery_header-add_dnsquery_header}
use imcore.Srv.Message
use imcore.Srv.Message.{DnsqueryQuestion, DnsqueryResourcerecord, im_srv_lookup}
use imcore.Srv.Lookup.{Answers, im_srv_lookup-Answers}

abbrev empty_name : List ℕ
empty_name = replicate 1024 0

abbrev a_question : DnsqueryQuestion
a_question = record { qname = empty_name; qtype = 0; qclass = 0 }

abbrev a_record : DnsqueryResourcerecord
a_record = record {
  name = empty_name;
  type = 0;
  class = 0;
  ttl = 0;
  rdlength = 0;
  rdata = record { priority = 0; weight = 0; port = 0; target = empty_name };
}

-- One question for `q`, and one SRV record for it, whose name is a pointer: port 5269 of `x.c`.
abbrev message : List ℕ
message =
    (0 ∷ 1 ∷ 129 ∷ 128 ∷ 0 ∷ 1 ∷ 0 ∷ 1 ∷ 0 ∷ 0 ∷ 0 ∷ 0 ∷ [])
    ++ ((1 ∷ 113 ∷ 0 ∷ 0 ∷ 33 ∷ 0 ∷ 1 ∷ [])
        ++ ((192 ∷ 12 ∷ 0 ∷ 33 ∷ 0 ∷ 1 ∷ 0 ∷ 0 ∷ 0 ∷ 60 ∷ 0 ∷ 11 ∷ [])
            ++ ((0 ∷ 10 ∷ 0 ∷ 5 ∷ 20 ∷ 149 ∷ 1 ∷ 120 ∷ 1 ∷ 99 ∷ 0 ∷ []) ++ replicate 32 0)))

size_of_pointer : calc_domain_name_size 9 message 19 ≡ ok 1
unfolding calc_domain_name_size size_loop size_step pointer
size_of_pointer = refl

finds :
    im_srv_lookup a_question a_record
      (λ _. some message)
      9
      (codes "xmpp-client")
      (codes "tcp")
      (codes "q")
      256
    ≡ ok (1, codes "x.c", 5269)
unfolding im_srv_lookup Message.on_reply Message.read_message Message.conclude Message.skip_records
    Message.get_answers Message.take_answer Message.fitted Message.c_string Message.get_questions
    Message.netbuf_get_dnsquery_resourcerecord Message.get_rdata
    Message.netbuf_get_dnsquery_srvrdata Message.netbuf_get_dnsquery_question
    netbuf_get_dnsquery_header netbuf_get_16bitnum netbuf_get_32bitnum netbuf_get_domain_name
    finish_name copy_name copy_label copy_pointer copy_bytes pointer measure measure_step
    write_bytes
finds = refl

im_srv_lookup-Answers_example : Answers (codes "q") 256 9 (some message) (1, codes "x.c", 5269)
im_srv_lookup-Answers_example =
    im_srv_lookup-Answers a_question a_record (λ _. some message) 9 (codes "xmpp-client")
      (codes "tcp") (codes "q") 256 (omega arith) (1, codes "x.c", 5269) finds

abbrev labels : List (List ℕ)
labels = codes "im" ∷ codes "org" ∷ []

get_domain_name-add_domain_name_example :
    (netbuf_add_domain_name (replicate 12 7) 3 (joined labels) >>= λ r.
    netbuf_get_domain_name 5 r.0 3 (replicate 7 9 ++ replicate 2 9) 9)
    ≡ ok (0, 3 + length (wire labels) + 1, (joined labels ++ 0 ∷ []) ++ replicate 2 9)
unfolding joined dotted wire label_bytes
get_domain_name-add_domain_name_example =
    get_domain_name-add_domain_name labels (replicate 12 7) 3 5 (replicate 7 9) (replicate 2 9) 9
      (omega arith) (omega arith) (omega arith) (omega arith) (omega arith)

-- Two labels of three bytes, in a buffer of six.
abbrev two_labels : List (List ℕ)
two_labels = codes "abc" ∷ codes "def" ∷ []

get_domain_name_overflows_example :
    netbuf_get_domain_name 5 ((8 ∷ []) ++ (wire two_labels ++ 0 ∷ [])) 1 (replicate 6 0) 6
    ≡ fault out_of_bounds
unfolding joined dotted wire label_bytes
get_domain_name_overflows_example =
    get_domain_name_overflows two_labels 5 (8 ∷ []) [] (replicate 6 0) (omega arith) (omega arith)
      (omega arith) (omega arith) (omega arith)

-- At byte 12 a pointer to byte 12.
get_domain_name_loops_example :
    netbuf_get_domain_name 1000 (replicate 12 0 ++ 192 ∷ 12 ∷ []) 12 (0 ∷ replicate 9 0) 10
    ≡ fault out_of_fuel
unfolding pointer
get_domain_name_loops_example =
    get_domain_name_loops 1000 (replicate 12 0 ++ 192 ∷ 12 ∷ []) 12 192 12 0 (replicate 9 0) 10 refl
      refl refl refl

abbrev a_header : DnsqueryHeader
a_header = record {
  id = 513;
  qr = 1;
  opcode = 2;
  aa = 0;
  tc = 1;
  rd = 1;
  ra = 1;
  z = 5;
  rcode = 3;
  qdcount = 1;
  ancount = 300;
  nscount = 0;
  arcount = 2;
}

get_dnsquery_header-add_dnsquery_header_example :
    (netbuf_add_dnsquery_header (replicate 14 0) 1 a_header >>= λ r.
    netbuf_get_dnsquery_header r.0 1)
    ≡ ok (a_header, 13)
get_dnsquery_header-add_dnsquery_header_example =
    get_dnsquery_header-add_dnsquery_header (replicate 14 0) 1 a_header (omega arith) (record {
      id = omega arith;
      qr = omega arith;
      opcode = omega arith;
      aa = omega arith;
      tc = omega arith;
      rd = omega arith;
      ra = omega arith;
      z = omega arith;
      rcode = omega arith;
      qdcount = omega arith;
      ancount = omega arith;
      nscount = omega arith;
      arcount = omega arith;
    })
