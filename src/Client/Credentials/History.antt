-- ===== src/Client/Credentials/History.antt =====
-- What a handshake of client/credentials.go names: the specification keeps, of each object, the list
-- of its dials.
use kubebrain_client.Prelude.{
  sym, ℕ, zero, suc, ◌≡◌, ◌⊎◌, refl, ◌∙◌, inl, inr, Option, none, some, List, [], ◌∷◌, ◌++◌, arith,
  Bytes, Map, lookup, lookup-insert, get_elem?, set,
}
use kubebrain_client.Resolver.Endpoint.{Url, parse_endpoint}
use kubebrain_client.Resolver.Schemes.{Leads, parse_endpoint-Leads}
use mathlib.Core.Path.{subst}
use kubebrain_client.Client.Credentials.{
  TransportCredentials, Security, actual_auth, client_handshake, clone, update_addr_to_endpoint,
}

-- An object dials an endpoint, with a connection or without, or is cloned.
pub data Op (Conn : Type 0) : Type 0 where
  dials : ℕ → Bytes → Option Conn → Op Conn
  clones : ℕ → Op Conn

-- The dials of an object, the last one first: the remote address and the endpoint.
abbrev pub Log : Type 0
Log = Map Bytes

-- The specification: a clone starts with the dials of its original, and goes its own way.
abbrev pub noted : ℕ → Log → List Log → Option Log → List Log
noted t entry logs none = logs
noted t entry logs (some log) = set logs t (entry ++ log)

abbrev pub copied : List Log → Option Log → List Log
copied logs none = logs
copied logs (some log) = logs ++ log ∷ []

module _ {Tls Auth Conn Shaken : Type 0} (sec : Security Tls Auth Conn Shaken) where
  unfoldable pub perform :
      Op Conn → List (TransportCredentials Tls Auth) → List (TransportCredentials Tls Auth)
  perform (dials t dial_ep conn) heap = update_addr_to_endpoint sec t dial_ep conn heap
  perform (clones t) heap = (clone sec t heap).0

  abbrev pub after :
      List (Op Conn) → List (TransportCredentials Tls Auth) → List (TransportCredentials Tls Auth)
  after [] heap = heap
  after (op ∷ ops) heap = after ops (perform op heap)

  abbrev pub log_of : Op Conn → List Log → List Log
  log_of (dials t dial_ep none) logs = logs
  log_of (dials t dial_ep (some conn)) logs =
      noted t ((sec.remote_addr conn, dial_ep) ∷ []) logs (get_elem? logs t)
  log_of (clones t) logs = copied logs (get_elem? logs t)

  abbrev pub logs_of : List (Op Conn) → List Log → List Log
  logs_of [] logs = logs
  logs_of (op ∷ ops) logs = logs_of ops (log_of op logs)

module _ {Tls Auth : Type 0} where
  -- A map and a log give the same last endpoint of every address.
  abbrev pub Same : TransportCredentials Tls Auth → Log → Type 0
  Same c log = (k : Bytes) → lookup k c.addr_to_endpoint ≡ lookup k log

  -- Each object has its log.
  abbrev pub Agrees : List (TransportCredentials Tls Auth) → List Log → Type 0
  Agrees [] [] = Unit
  Agrees [] (_ ∷ _) = ⊥
  Agrees (_ ∷ _) [] = ⊥
  Agrees (c ∷ heap) (log ∷ logs) = Same c log × Agrees heap logs

  abbrev pub Found : ℕ → List (TransportCredentials Tls Auth) → List Log → Type 0
  Found t heap logs =
      ((get_elem? heap t ≡ none) × (get_elem? logs t ≡ none))
      ⊎ ((c : TransportCredentials Tls Auth) × (log : Log) × (get_elem? heap t ≡ some c)
          × (get_elem? logs t ≡ some log)
          × Same c log)

  Agrees-cases :
      (t : ℕ) (heap : List (TransportCredentials Tls Auth)) (logs : List Log)
      → Agrees heap logs
      → Found t heap logs
  Agrees-cases t [] [] a = inl (refl, refl)
  Agrees-cases t [] (_ ∷ _) a = elim a [ ]
  Agrees-cases t (_ ∷ _) [] a = elim a [ ]
  Agrees-cases zero (c ∷ heap) (log ∷ logs) (same, a) = inr (c, log, refl, refl, same)
  Agrees-cases (suc t) (c ∷ heap) (log ∷ logs) (same, a) = Agrees-cases t heap logs a

  set-Agrees :
      (t : ℕ) (heap : List (TransportCredentials Tls Auth)) (logs : List Log)
      (c : TransportCredentials Tls Auth) (log : Log)
      → Same c log
      → Agrees heap logs
      → Agrees (set heap t c) (set logs t log)
  set-Agrees t [] [] c log same a = tt
  set-Agrees t [] (_ ∷ _) c log same a = elim a [ ]
  set-Agrees zero (d ∷ heap) [] c log same a = elim a [ ]
  set-Agrees (suc t) (d ∷ heap) [] c log same a = elim a [ ]
  set-Agrees zero (d ∷ heap) (other ∷ logs) c log same (_, a) = (same, a)
  set-Agrees (suc t) (d ∷ heap) (other ∷ logs) c log same (first, a) =
      (first, set-Agrees t heap logs c log same a)

  append-Agrees :
      (heap : List (TransportCredentials Tls Auth)) (logs : List Log)
      (c : TransportCredentials Tls Auth) (log : Log)
      → Same c log
      → Agrees heap logs
      → Agrees (heap ++ c ∷ []) (logs ++ log ∷ [])
  append-Agrees [] [] c log same a = (same, tt)
  append-Agrees [] (_ ∷ _) c log same a = elim a [ ]
  append-Agrees (d ∷ heap) [] c log same a = elim a [ ]
  append-Agrees (d ∷ heap) (other ∷ logs) c log same (first, a) =
      (first, append-Agrees heap logs c log same a)

module _ {Tls Auth Conn Shaken : Type 0} (sec : Security Tls Auth Conn Shaken) where
  perform-Agrees :
      (op : Op Conn) (heap : List (TransportCredentials Tls Auth)) (logs : List Log)
      → Agrees heap logs
      → Agrees (perform sec op heap) (log_of sec op logs)
  unfolding perform update_addr_to_endpoint clone lookup
  perform-Agrees (dials t dial_ep none) heap logs a = a
  perform-Agrees (dials t dial_ep (some conn)) heap logs a = elim (Agrees-cases t heap logs a) [
    | inl (e, f) ↦ rw (e, update_addr_to_endpoint, f) a
    | inr (c, log, e, f, same) ↦
        rw (e, update_addr_to_endpoint, f)
          (set-Agrees t heap logs _ ((sec.remote_addr conn, dial_ep) ∷ log)
            (λ k.
              lookup-insert (sec.remote_addr conn) k dial_ep c.addr_to_endpoint
              ∙ ground (arith, same k))
            a)
  ]
  perform-Agrees (clones t) heap logs a = elim (Agrees-cases t heap logs a) [
    | inl (e, f) ↦ rw (e, perform, f) a
    | inr (c, log, e, f, same) ↦ rw (e, perform, f) (append-Agrees heap logs _ log same a)
  ]

  after-Agrees :
      (ops : List (Op Conn)) (heap : List (TransportCredentials Tls Auth)) (logs : List Log)
      → Agrees heap logs
      → Agrees (after sec ops heap) (logs_of sec ops logs)
  after-Agrees [] heap logs a = a
  after-Agrees (op ∷ ops) heap logs a =
      after-Agrees ops (perform sec op heap) (log_of sec op logs) (perform-Agrees op heap logs a)

  -- The handshake is for the host of the last endpoint that is noted, or for the given authority.
  abbrev pub Names :
      (Bytes → Option Url)
      → TransportCredentials Tls Auth
      → Bytes
      → Conn
      → Option Bytes
      → Option Shaken
      → Type 0
  Names url_parse c auth conn none shaken = shaken ≡ some (sec.shake c.embedded auth conn)
  Names url_parse c auth conn (some dial_ep) shaken =
      (net : Bytes) × (host : Bytes) × Leads url_parse dial_ep net host
      × (shaken ≡ some (sec.shake c.embedded host conn))

  host_named :
      (url_parse : Bytes → Option Url) (c : TransportCredentials Tls Auth) (auth : Bytes)
      (conn : Conn) (last : Option Bytes)
      → Names url_parse c auth conn last
          (some (sec.shake c.embedded (actual_auth sec url_parse auth last) conn))
  unfolding actual_auth
  host_named url_parse c auth conn none = refl
  host_named url_parse c auth conn (some dial_ep) = (
    (parse_endpoint url_parse dial_ep).proto,
    (parse_endpoint url_parse dial_ep).host,
    parse_endpoint-Leads url_parse dial_ep,
    refl,
  )

  -- After any dials and clones of credentials whose maps agree with lists of dials to begin with, a
  -- handshake of an object names the host of the last endpoint that this object, or before its
  -- cloning its original, dialled to the remote address of the connection (that of its URL for the
  -- schemes http and https, with the path for unix and unixs, and the endpoint itself if it is no
  -- URL with "://"), and the given authority if there is none: the maps of the objects implement
  -- the lists of their dials, and a clone is independent of its original.
  pub handshake-Names :
      (url_parse : Bytes → Option Url) (ops : List (Op Conn)) (t : ℕ) (auth : Bytes) (conn : Conn)
      (heap : List (TransportCredentials Tls Auth)) (logs : List Log)
      (c : TransportCredentials Tls Auth)
      → Agrees heap logs
      → get_elem? (after sec ops heap) t ≡ some c
      → (log : Log) × (get_elem? (logs_of sec ops logs) t ≡ some log)
        × Names url_parse c auth conn
            (lookup (sec.remote_addr conn) log)
            (client_handshake sec url_parse t auth conn (after sec ops heap))
  unfolding client_handshake
  handshake-Names url_parse ops t auth conn heap logs c a there =
      elim (Agrees-cases t (after sec ops heap) (logs_of sec ops logs)
        (after-Agrees ops heap logs a)) [
          | inl (e, f) ↦ absurd (ground (arith, e, there))
          | inr (d, log, e, f, same) ↦
              let last = lookup (sec.remote_addr conn) log in
              let shaken : client_handshake sec url_parse t auth conn (after sec ops heap)
                  ≡ some (sec.shake c.embedded (actual_auth sec url_parse auth last) conn) =
                ground (arith, there, e, same (sec.remote_addr conn)) in
              (
                log,
                f,
                subst (Names url_parse c auth conn last) (sym shaken)
                    (host_named url_parse c auth conn last),
              )
        ]
