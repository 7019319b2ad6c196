-- ===== src/Membership/Tests.antt =====
-- A namespace that goes on where another ends.
use agora_etl.Prelude.{true, none, [], ◌≡◌, refl}
use agora_etl.Membership.{MembershipKeyStore, contains, add}

abbrev users : MembershipKeyStore
users = record { namespace = "users"; default_ttl_s = none }

abbrev users_eu : MembershipKeyStore
users_eu = record { namespace = "users:eu"; default_ttl_s = none }

-- What is added to one is a member of the other.
namespaces_meet : (contains users 0 "eu:7" (add users_eu 0 "7" none [])).0 ≡ true
unfolding contains add agora_etl.Membership.full_key agora_etl.Membership.prefix
    agora_etl.Membership.expires_at agora_etl.Memory.get agora_etl.Memory.set
namespaces_meet = refl
