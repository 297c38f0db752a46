-- ===== src/IpSet/Tests.antt =====
-- The table of sets with a tool that always succeeds.
use kube_router.Prelude.{String, ◌≡◌, false, some, List, [], ◌∷◌}
use kube_router.Exec.{ok}
use kube_router.Dict.{lookup}
use kube_router.IpSet.{Set, Tool, Host, get}

-- The state of the world is the list of the commands that were run.
abbrev log_tool : Tool (List (List String))
log_tool = record {
  run = λ args w. (ok "", args ∷ w);
  run_with_stdin = λ stdin args w. (ok "", args ∷ w);
}

abbrev foo : Set
foo = record { name = "foo"; entries = ("10.0.0.1" ∷ []) ∷ []; options = "hash:ip" ∷ [] }

abbrev one_host : Host (List (List String))
one_host = record { ipset = record { sets = ("foo", foo) ∷ []; is_ipv6 = false }; world = [] }

own_name : (set : Set) → get one_host.ipset "foo" ≡ some set → set.name ≡ "foo"
unfolding get lookup
own_name set h = cc
