-- ===== src/Ninfod/Tests.antt =====
-- ninfod at concrete inputs.
use baseliner_docker.Base.{
  ℕ, true, false, List, [], ◌∷◌, ◌++◌, none, some, ℤ, pos, arith, ◌≡◌, refl, ◌+ℤ◌,
}
use baseliner_docker.Ninfod.Compare.{
  answer, unfinished, byte_at, same_bytes, memcmp, match_labels, stepped, advance, compare_labels,
  round, compare_loop, last_is_zero, compare_dnsname,
}
use baseliner_docker.Ninfod.Ending.{compare_dnsname-total}
use baseliner_docker.Ninfod.Stuck.{compare_dnsname_stuck}
use baseliner_docker.Ninfod.Rounds.{dns_name}
use baseliner_docker.Ninfod.Matching.{compare_dnsname-dns_name}
use baseliner_docker.Ninfod.Encode.{
  is_upper, is_alpha, is_digit, to_lower, lower_all, label_of, chars_ok, behind_label, encode_loop,
  returned, failed, end_name, encode_dnsname,
}
use baseliner_docker.Ninfod.Node.{
  Node, Init, join_group, leave_group, nodeinfo_group, leave_group_of, leave_old, join_new,
  check_nigroup, encoded_name, start, init_nodeinfo_nodename, init_all, pr_nodeinfo_nodename,
}
use baseliner_docker.Ninfod.Answering.{query, taken, pr_nodeinfo_nodename-init_nodeinfo_nodename}
use baseliner_docker.Ninfod.Encoding.{encode_dnsname-dns_name}

abbrev host_name : List (List ℕ)
host_name = (b'a' ∷ b'b' ∷ []) ∷ (b'c' ∷ []) ∷ []

abbrev host : List (List ℕ)
host = (b'a' ∷ b'b' ∷ []) ∷ []

-- A fully qualified subject that is longer than the fully qualified name of the node matches.
longer_subject : compare_dnsname 5 (dns_name true host_name) (dns_name true host) ≡ answer (pos 0)
unfolding byte_at same_bytes memcmp match_labels stepped advance compare_labels round compare_loop
    last_is_zero compare_dnsname ◌+ℤ◌
longer_subject = refl

-- A label with a hyphen at its end is refused.
hyphen_at_end : encode_dnsname 3 (b'a' ∷ b'-' ∷ []) 10 (pos 0) ≡ failed
unfolding is_upper is_alpha is_digit to_lower lower_all label_of chars_ok behind_label encode_loop
    end_name encode_dnsname
hyphen_at_end = refl

-- A second dot is refused.
two_dots : encode_dnsname 3 (b'a' ∷ b'.' ∷ b'.' ∷ []) 10 (pos 0) ≡ failed
unfolding is_upper is_alpha is_digit to_lower lower_all label_of chars_ok behind_label encode_loop
    end_name encode_dnsname
two_dots = refl

encode_dnsname_example :
    encode_dnsname 4 (b'A' ∷ b'b' ∷ b'.' ∷ b'c' ∷ b'.' ∷ []) 6 (pos 0)
    ≡ returned (dns_name true host_name)
unfolding is_upper is_alpha is_digit to_lower lower_all chars_ok
encode_dnsname_example =
    encode_dnsname-dns_name 4 true (b'A' ∷ b'b' ∷ []) ((b'c' ∷ []) ∷ []) 6
      ((omega arith, omega arith, refl), ((omega arith, omega arith, refl), tt)) (omega arith)
      (omega arith) (omega arith)

compare_dnsname_example :
    compare_dnsname 3 (dns_name false host_name) (dns_name false host) ≡ answer (pos 1)
unfolding same_bytes
compare_dnsname_example =
    compare_dnsname-dns_name 3 false false host_name host
      (omega arith, omega arith, (omega arith, omega arith, tt)) (omega arith, omega arith, tt)
      (omega arith)

total_example :
    (r : ℤ) × (compare_dnsname 7 (b'a' ∷ b'b' ∷ 0 ∷ []) (dns_name true host_name) ≡ answer r)
total_example =
    compare_dnsname-total 7 (b'a' ∷ b'b' ∷ 0 ∷ []) (dns_name true host_name)
      (omega arith, (omega arith, (omega arith, tt)))
      (omega arith, (omega arith, (omega arith, (omega arith, (omega arith, (omega arith, tt))))))
      (omega arith)

unfinished_example : compare_dnsname 100 (255 ∷ 0 ∷ []) (dns_name true host_name) ≡ unfinished
unfolding last_is_zero
unfinished_example =
    compare_dnsname_stuck 100 (0 ∷ []) (b'a' ∷ b'b' ∷ 1 ∷ b'c' ∷ 0 ∷ []) 2 refl refl (omega arith)
      (omega arith) (omega arith)

abbrev digest : List ℕ → List ℕ
digest l = l ++ 0 ∷ 0 ∷ 0 ∷ 0 ∷ []

-- Two names whose first labels differ in their last byte only have the same group.
same_group :
    nodeinfo_group digest (dns_name true ((b'a' ∷ b'b' ∷ []) ∷ []))
    ≡ nodeinfo_group digest (dns_name true ((b'a' ∷ b'c' ∷ []) ∷ []))
unfolding nodeinfo_group
same_group = refl

-- The first join fails, the second name gets its group, and the third name is not valid.
abbrev three_names : List Init
three_names =
    record { forced = true; newname = b'a' ∷ []; left = true; joined = false }
    ∷ record { forced = false; newname = b'b' ∷ []; left = true; joined = true }
    ∷ record { forced = false; newname = b'-' ∷ []; left = false; joined = true }
    ∷ []

three_groups :
    init_all digest three_names start
    ≡ some (record {
      utsname = b'-' ∷ [];
      nodename = [];
      nigroup = none;
      calls =
          leave_group (nodeinfo_group digest (1 ∷ b'b' ∷ 0 ∷ 0 ∷ [])) false
          ∷ join_group (nodeinfo_group digest (1 ∷ b'b' ∷ 0 ∷ 0 ∷ [])) true
          ∷ join_group (nodeinfo_group digest (1 ∷ b'a' ∷ 0 ∷ 0 ∷ [])) false
          ∷ [];
    })
unfolding is_upper is_alpha is_digit to_lower lower_all label_of chars_ok behind_label encode_loop
    end_name encode_dnsname encoded_name leave_group_of leave_old join_new init_nodeinfo_nodename
    init_all same_bytes nodeinfo_group
three_groups = refl

-- A node "Ab.c" takes a query for "ab".
answers_example :
    (node : Node) × (init_nodeinfo_nodename digest true
        (b'A' ∷ b'b' ∷ b'.' ∷ b'c' ∷ [])
        true
        true
        start
      ≡ some node)
    × (node.nigroup ≡ some (nodeinfo_group digest (dns_name false host_name)))
    × (check_nigroup node (nodeinfo_group digest (dns_name true host_name)) ≡ true)
    × (pr_nodeinfo_nodename 2 (query (dns_name false host) 3 true true true) node
        ≡ taken 3 true true true (dns_name false host_name))
unfolding is_upper is_alpha is_digit to_lower lower_all chars_ok same_bytes nodeinfo_group
answers_example =
    pr_nodeinfo_nodename-init_nodeinfo_nodename digest 2 false false (b'A' ∷ b'b' ∷ [])
      ((b'c' ∷ []) ∷ []) host (nodeinfo_group digest (dns_name true host_name)) 3 true true true
      true true start ((omega arith, omega arith, refl), ((omega arith, omega arith, refl), tt))
      (omega arith) (omega arith, omega arith, tt) (omega arith)
