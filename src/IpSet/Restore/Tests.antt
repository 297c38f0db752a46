-- ===== src/IpSet/Restore/Tests.antt =====
-- A model of the kernel that obeys the laws, and the script at a concrete table.
use kube_router.Prelude.{
  String, ◌≡◌, refl, Bool, true, some, false, not, ◌&&◌, ◌||◌, List, [], ◌∷◌, arith, if◌then◌else◌,
  ◌==◌, eq_iff, Bool-cases, inl, inr,
}
use kube_router.Prelude.Text.{concat, join, sort_strings}
use kube_router.Dict.{lookup, insert, keys, values}
use kube_router.IpSet.{Set}
use kube_router.IpSet.Restore.{
  Line, create, flush, add, swap, destroy, tmp_name, build_ipset_restore, restore_script,
}
use kube_router.IpSet.Restore.Kernel.{Kernel, Sight, exec}
use kube_router.IpSet.Restore.Loop.{IsManaged, has_options}
use kube_router.IpSet.Restore.Temporary.{IsPlan}
use kube_router.IpSet.Restore.Refines.{Restored, IsHost, restore_script-Restored}

record State : Type 0 where
  there : String → Bool
  kind : String → String
  holds : String → String → Bool

step : Line → State → State
step (create m o) k = record k {
  there = λ n. m == n || k.there n;
  kind = λ n. if m == n then o else k.kind n;
}
step (flush m) k = record k { holds = λ n e. not (m == n) && k.holds n e }
step (add m x) k = record k { holds = λ n e. (m == n && x == e) || k.holds n e }
step (swap a b) k = record k {
  holds = λ n e. if a == n then k.holds b e else if b == n then k.holds a e else k.holds n e;
}
step (destroy m) k = record k {
  there = λ n. not (m == n) && k.there n;
  holds = λ n e. not (m == n) && k.holds n e;
}

-- A host that knows two types of sets, with room for every entry.
see : Sight State
see = record {
  exists = λ k. k.there;
  params = λ k. k.kind;
  member = λ k. k.holds;
  used = λ k n. false;
}

state_kernel : Kernel State
unfolding step see
state_kernel = record {
  see = see;
  apply = step;
  supports = λ o. o == "hash:ip" || o == "hash:net";
  canonical = λ o. o;
  fits = λ o p. true;
  fits-fewer = λ o p q h f. f;
  creates = λ k m o h g. record {
    exists = λ n. refl;
    params = λ n. refl;
    member = λ n e. refl;
    unused = λ n u. u;
  };
  flushes = λ k m h. record {
    exists = λ n. refl;
    params = λ n. refl;
    member = λ n e. refl;
    unused = λ n u. u;
  };
  adds = λ k m x h f. record {
    exists = λ n. refl;
    params = λ n. refl;
    member = λ n e. refl;
    unused = λ n u. u;
  };
  swaps = λ k a b h g q. record {
    exists = λ n. refl;
    params = λ n. refl;
    member = λ n e. refl;
    unused = λ n u. u;
  };
  destroys = λ k m h u. record {
    exists = λ n. refl;
    params = λ n. refl;
    member = λ n e. refl;
    unused = λ n u. u;
  };
}

abbrev two_sets : List (String × Set)
two_sets =
    ("foo", record { name = "foo"; entries = ("1.1.1.1" ∷ []) ∷ []; options = "hash:ip" ∷ [] })
    ∷ ("bar", record { name = "bar"; entries = []; options = "hash:ip" ∷ [] })
    ∷ []

-- One temporary set serves both, and `bar` comes first.
script_two :
    build_ipset_restore (λ s. s) (record { sets = two_sets; is_ipv6 = false })
    ≡ concat (
        "create TMP-tmp:hash:ip hash:ip\nflush TMP-tmp:hash:ip\n"
        ∷ "create bar hash:ip\nswap TMP-tmp:hash:ip bar\nflush TMP-tmp:hash:ip\n"
        ∷ "add TMP-tmp:hash:ip 1.1.1.1\ncreate foo hash:ip\n"
        ∷ "swap TMP-tmp:hash:ip foo\nflush TMP-tmp:hash:ip\ndestroy TMP-tmp:hash:ip\n" ∷ [])
unfolding build_ipset_restore sort_strings keys values lookup insert join concat
script_two = refl

abbrev parameters : String → String
parameters n = "hash:ip"

options_of_two :
    (n : String) (set : Set) → lookup n two_sets ≡ some set → set.options ≡ "hash:ip" ∷ []
unfolding lookup
options_of_two n set h = ground arith

two_sets-IsManaged : IsManaged (λ s. s) state_kernel parameters two_sets
unfolding lookup state_kernel see join
two_sets-IsManaged = record {
  same_name = λ n set h. ground (arith, eq_iff "foo" n, eq_iff "bar" n);
  no_tmp = λ n set h. elim (Bool-cases ("foo" == n)) [
    | inl p ↦ rw (← (eq_iff "foo" n).0 p) refl
    | inr p ↦ let q : "bar" ≡ n = ground (arith, eq_iff "bar" n) in rw (← q) refl
  ];
  sound = λ n set h. record { parameters = rw (options_of_two n set h) refl; room = refl };
}

two_sets-IsPlan : IsPlan (λ s. s) state_kernel (has_options two_sets) parameters
unfolding state_kernel see tmp_name values join
two_sets-IsPlan = record {
  supported = λ o h. let e : "hash:ip" ≡ o = (eq_iff "hash:ip" o).0 (ground arith) in rw (← e) refl;
  no_clash = λ o o' h h' q.
      let e : "hash:ip" ≡ o = (eq_iff "hash:ip" o).0 (ground arith) in
      let e' : "hash:ip" ≡ o' = (eq_iff "hash:ip" o').0 (ground arith) in cc;
  tmp_params = λ o h. (eq_iff "hash:ip" o).0 (ground arith);
}

-- A host that has `foo` with another entry, and a temporary set of a run that was cut off.
abbrev host : State
host = record {
  kind = λ n. "hash:ip";
  there = λ n. n == "foo" || n == "TMP-tmp:hash:ip";
  holds = λ n e. (n == "foo" || n == "TMP-tmp:hash:ip") && e == "2.2.2.2";
}

host-IsHost : IsHost (λ s. s) state_kernel parameters host
unfolding state_kernel see
host-IsHost = record { typed = λ n h. refl; unused = λ n h. refl }

restore_script-Restored_example :
    Restored
      (λ s. s)
      state_kernel
      two_sets
      host
      (exec state_kernel (restore_script (λ s. s) two_sets) host)
restore_script-Restored_example =
    restore_script-Restored (λ s. s) state_kernel parameters two_sets host two_sets-IsManaged
      two_sets-IsPlan host-IsHost
