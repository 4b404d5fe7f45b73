-- ===== src/Config/Validate/Sound.antt =====
-- What a configuration that `AppConfig::validate` of src/config.rs accepts satisfies.
use remote_open_power.Base.{
  Bytes, Bool, true, false, List, [], ◌∷◌, All, Option, Result, ok, ◌||◌, not, all, contains,
  distinct, collect, length, map, ◌≡◌, ◌≤◌, nat_eq, list_eq, refl, arith, Result-cases, Bool-cases,
  inl, inr,
}
use remote_open_power.Protocol.Message.{max_hosts}
use remote_open_power.Server.Host.{HostConfig}
use remote_open_power.Config.{ConfigError, AppConfig, AllowedClient, max_clients}
use remote_open_power.Config.Text.{trim}
use remote_open_power.Config.Address.{lower, IpAddr, validate_client_id}
use remote_open_power.Config.Keys.{client_id_from_public_key}
use remote_open_power.Config.Validate.{
  host_id, validate_allowed, validate_host, validate_hosts, key_of, validate_allowed_client,
  validate_clients, validate_tables, validate,
}

-- None of the list is in `seen`.
abbrev Unseen : List Bytes → List Bytes → Type 0
Unseen seen xs = all (λ x. not (contains seen x)) xs ≡ true

fresh_beyond :
    (x : Bytes) (seen xs : List Bytes)
    → Unseen (x ∷ seen) xs
    → (contains xs x ≡ false) × Unseen seen xs
fresh_beyond x seen [] h = (refl, refl)
fresh_beyond x seen (y ∷ xs) h = ground (arith, h, fresh_beyond x seen xs)

abbrev normal : Bytes → Bytes
normal host = lower (trim host)

allowed_sound :
    (host_ids seen hosts : List Bytes)
    → validate_allowed host_ids seen hosts ≡ ok tt
    → (all (λ h. contains host_ids h) (map normal hosts) ≡ true)
      × (distinct (map normal hosts) ≡ true)
      × Unseen seen (map normal hosts)
unfolding validate_allowed
allowed_sound host_ids seen [] h = (refl, refl, refl)
allowed_sound host_ids seen (host ∷ hosts) h =
    elim (Bool-cases (contains seen (normal host) || not (contains host_ids (normal host)))) [
      | inl bad ↦ absurd (ground (arith, h, bad))
      | inr good ↦
          let rest : validate_allowed host_ids (normal host ∷ seen) hosts ≡ ok tt =
            ground (arith, h, good) in
          let (known, once, fresh) = allowed_sound host_ids (normal host ∷ seen) hosts rest in
          let (new, unseen) = fresh_beyond (normal host) seen (map normal hosts) fresh in
          (ground (arith, good, known), ground (arith, new, once), ground (arith, good, unseen))
    ]

module _ (parse_ip : Bytes → Option IpAddr) where
  hosts_sound :
      (public : Bool) (ids : List Bytes) (hosts : List HostConfig)
      → validate_hosts parse_ip public ids hosts ≡ ok tt
      → (distinct (map host_id hosts) ≡ true) × Unseen ids (map host_id hosts)
  unfolding validate_hosts
  hosts_sound public ids [] h = (refl, refl)
  hosts_sound public ids (x ∷ hosts) h = elim (Result-cases (validate_host parse_ip x public)) [
    | inr (e, bad) ↦ absurd (ground (arith, h, bad))
    | inl (u, valid) ↦ elim (Bool-cases (contains ids (host_id x))) [
      | inl seen ↦ absurd (ground (arith, h, valid, seen))
      | inr new ↦
          let rest : validate_hosts parse_ip public (host_id x ∷ ids) hosts ≡ ok tt =
            ground (arith, h, valid, new) in
          let (once, fresh) = hosts_sound public (host_id x ∷ ids) hosts rest in
          let (alone, unseen) = fresh_beyond (host_id x) ids (map host_id hosts) fresh in
          (ground (arith, alone, once), ground (arith, new, unseen))
    ]
  ]

  module _ (hex_decode : Bytes → Option Bytes) (hex_encode sha256 public_key : Bytes → Bytes)
      (diffie_hellman : Bytes → Bytes → Bytes) where
    abbrev id_of : Bytes → Bytes
    id_of = client_id_from_public_key hex_decode hex_encode sha256 public_key diffie_hellman

    abbrev parsed : Bytes → Result ConfigError Bytes
    parsed = key_of parse_ip hex_decode hex_encode sha256 public_key diffie_hellman

    -- Its identifier is that of its key, and its hosts are configured, each named once.
    abbrev pub IsAllowed : List Bytes → AllowedClient → Type 0
    IsAllowed host_ids c =
        ((key : Bytes) × (parsed c.static_public_key ≡ ok key) × (c.client_id ≡ id_of key))
        × (length c.allowed_hosts ≤ max_hosts)
        × (all (λ h. contains host_ids h) (map normal c.allowed_hosts) ≡ true)
        × (distinct (map normal c.allowed_hosts) ≡ true)

    abbrev client_valid : AllowedClient → List Bytes → Result ConfigError (Unit {0})
    client_valid =
        validate_allowed_client parse_ip hex_decode hex_encode sha256 public_key diffie_hellman

    client_sound :
        (c : AllowedClient) (host_ids : List Bytes)
        → client_valid c host_ids ≡ ok tt
        → IsAllowed host_ids c
    unfolding validate_allowed_client
    client_sound c host_ids h = elim (Result-cases (validate_client_id c.client_id)) [
      | inr (e, bad) ↦ absurd (ground (arith, h, bad))
      | inl (u, named) ↦ elim (Result-cases (parsed c.static_public_key)) [
        | inr (e, bad) ↦ absurd (ground (arith, h, named, bad))
        | inl (key, found) ↦ elim (Result-cases (validate_allowed host_ids [] c.allowed_hosts)) [
          | inr (e, bad) ↦ absurd (ground (arith, h, named, found, bad))
          | inl (tt, allowed) ↦
              let (known, once, fresh) = allowed_sound host_ids [] c.allowed_hosts allowed in
              (
                (key, found, ground (arith, h, named, found)),
                ground (arith, h, named, found),
                known,
                once,
              )
        ]
      ]
    ]

    abbrev lowered : AllowedClient → Bytes
    lowered c = lower c.client_id

    clients_sound :
        (host_ids ids keys : List Bytes) (clients : List AllowedClient)
        → validate_clients parse_ip hex_decode hex_encode sha256 public_key diffie_hellman host_ids
            ids keys clients
          ≡ ok tt
        → All (IsAllowed host_ids) clients
          × (distinct (map lowered clients) ≡ true)
          × Unseen ids (map lowered clients)
    unfolding validate_clients
    clients_sound host_ids ids keys [] h = (tt, refl, refl)
    clients_sound host_ids ids keys (c ∷ clients) h =
        elim (Result-cases (client_valid c host_ids)) [
          | inr (e, bad) ↦ absurd (ground (arith, h, bad))
          | inl (tt, valid) ↦ elim (Bool-cases (contains ids (lowered c))) [
            | inl seen ↦ absurd (ground (arith, h, valid, seen))
            | inr new ↦ elim (Result-cases (parsed c.static_public_key)) [
              | inr (e, bad) ↦ absurd (ground (arith, h, valid, new, bad))
              | inl (key, found) ↦
                  let rest : validate_clients parse_ip hex_decode hex_encode sha256 public_key
                        diffie_hellman host_ids (lowered c ∷ ids) (key ∷ keys) clients
                      ≡ ok tt =
                    ground (arith, h, valid, new, found) in
                  let (each, once, fresh) =
                    clients_sound host_ids (lowered c ∷ ids) (key ∷ keys) clients rest in
                  let (alone, unseen) = fresh_beyond (lowered c) ids (map lowered clients) fresh in
                  (
                    (client_sound c host_ids valid, each),
                    ground (arith, alone, once),
                    ground (arith, new, unseen),
                  )
            ]
          ]
        ]

    -- The tables of hosts and clients are bounded, no identifier of either stands twice, and each
    -- client is allowed configured hosts only.
    pub record IsSound (a : AppConfig) : Type 0 where
      pub few_hosts : length a.hosts ≤ max_hosts
      pub few_clients : length a.security.allowed_clients ≤ max_clients
      pub distinct_hosts : distinct (map host_id a.hosts) ≡ true
      pub distinct_clients : distinct (map lowered a.security.allowed_clients) ≡ true
      pub allowed : All (IsAllowed (collect (map host_id a.hosts))) a.security.allowed_clients

    validate_tables-IsSound :
        (a : AppConfig)
        → validate_tables parse_ip hex_decode hex_encode sha256 public_key diffie_hellman a ≡ ok tt
        → IsSound a
    unfolding validate_tables
    validate_tables-IsSound a h =
        elim (Result-cases (validate_hosts parse_ip a.security.allow_public_targets [] a.hosts)) [
          | inr (e, bad) ↦ absurd (ground (arith, h, bad))
          | inl (tt, hosts) ↦
              let clients : validate_clients parse_ip hex_decode hex_encode sha256 public_key
                    diffie_hellman (collect (map host_id a.hosts)) [] [] a.security.allowed_clients
                  ≡ ok tt =
                ground (arith, h, hosts) in
              let (each, once, fresh) =
                clients_sound (collect (map host_id a.hosts)) [] [] a.security.allowed_clients
                  clients in
              record {
                few_hosts = ground (arith, h);
                few_clients = ground (arith, h);
                distinct_hosts = (hosts_sound a.security.allow_public_targets [] a.hosts hosts).0;
                distinct_clients = once;
                allowed = each;
              }
        ]

    -- A configuration that `validate` accepts has at most 64 hosts and 128 clients, no host and no
    -- client twice whatever the case of its name, and each client's identifier is the fingerprint of
    -- its key and its hosts are configured hosts, each once.
    pub validate-IsSound :
        (a : AppConfig)
        → validate parse_ip hex_decode hex_encode sha256 public_key diffie_hellman a ≡ ok tt
        → IsSound a
    unfolding validate
    validate-IsSound a h = validate_tables-IsSound a (ground (arith, h))
