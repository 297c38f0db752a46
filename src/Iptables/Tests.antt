-- ===== src/Iptables/Tests.antt =====
-- AppendUnique at a buffer that holds the rule already.
use kube_router.Prelude.{◌≡◌, refl, List, [], ◌∷◌, String}
use kube_router.Prelude.Text.{join, concat, contains, split}
use kube_router.Iptables.{append_unique, text_of}

abbrev accept : List String
accept = "-j" ∷ "ACCEPT" ∷ []

abbrev old_lines : List String
old_lines = "-A INPUT -j ACCEPT" ∷ "-A INPUT -j DROP" ∷ []

accept_last :
    append_unique (text_of old_lines) "INPUT" accept ≡ "-A INPUT -j DROP\n-A INPUT -j ACCEPT\n"
unfolding append_unique text_of concat split join contains
accept_last = refl
