-- ===== src/Client/Tidy.antt =====
-- What the tables of a client say of each other, and that the single changes keep it.
use web_tether.Common.{
  ℕ, ◌≤◌, ◌<◌, ◌≡◌, ◌≢◌, refl, sym, ◌∙◌, true, false, Option, none, some, ◌==◌, arith, Bool-cases,
  Option-cases, ◌⊎◌, inl, inr,
}
use web_tether.Common.Int.{ℤ, pos, is_negative, ℤ_beq, ℤ_beq_iff}
use web_tether.Common.Dict.{Dict, get, set, get-set, get-delete, int_eq, text_eq}
use web_tether.SafeBuffer.{Bytes}
use web_tether.Relay.{Text}
use web_tether.Client.{
  Address, Dial, RegisteredService, TunnelClientConnection, TunnelClientLink, Client, Coding,
  new_client, drop_connection, finalize_connection, drop_link, finalize_link,
}
use web_tether.Client.Requests.{LocalClient, serve_client, abort_connection}
use web_tether.Client.Commands.{on_connect, start_link}
use web_tether.Client.Dials.{finalize_dial}

-- A connection's identifier is one that the client has counted, a link's is negative; a dial belongs
-- to one link, and its number is one that the client has counted.
pub record IsTidy (c : Client) : Type 0 where
  pub counted : 1 ≤ c.local_uid
  pub numbered :
      (u : ℤ) → get u c.connections ≢ none → (n : ℕ) × (u ≡ pos n) × (1 ≤ n) × (n < c.local_uid)
  pub negative : (u : ℤ) (l : TunnelClientLink) → get u c.links ≡ some l → is_negative u ≡ true
  pub dialled : (u : ℤ) (l : TunnelClientLink) → get u c.links ≡ some l → l.dial < c.next_dial
  pub distinct :
      (u v : ℤ) (l k : TunnelClientLink)
      → get u c.links ≡ some l
      → get v c.links ≡ some k
      → l.dial ≡ k.dial
      → u ≡ v

pub new_client-IsTidy : (registered : Dict Text RegisteredService) → IsTidy (new_client registered)
unfolding new_client get
new_client-IsTidy registered = record {
  counted = omega arith;
  numbered = λ u h. absurd (h refl);
  negative = λ u l h. cc;
  dialled = λ u l h. cc;
  distinct = λ u v l k h g e. cc;
}

-- A change that adds no key and counts nothing.
pub record Shrinks (c d : Client) : Type 0 where
  pub connections : (u : ℤ) → get u d.connections ≢ none → get u c.connections ≢ none
  pub links : (u : ℤ) (l : TunnelClientLink) → get u d.links ≡ some l → get u c.links ≡ some l
  uids : d.local_uid ≡ c.local_uid
  dials : d.next_dial ≡ c.next_dial

Shrinks-refl : (c : Client) → Shrinks c c
Shrinks-refl c = record { connections = λ u h. h; links = λ u l h. h; uids = refl; dials = refl }

pub Shrinks-IsTidy : (c d : Client) → IsTidy c → Shrinks c d → IsTidy d
Shrinks-IsTidy c d h s = record {
  counted = omega (arith, h.counted, s.uids);
  numbered = λ u g.
      let (n, e, low, high) = h.numbered u (s.connections u g) in
      (n, e, low, omega (arith, high, s.uids));
  negative = λ u l g. h.negative u l (s.links u l g);
  dialled = λ u l g. omega (arith, h.dialled u l (s.links u l g), s.dials);
  distinct = λ u v l k g f e. h.distinct u v l k (s.links u l g) (s.links v k f) e;
}

drop_connection-Shrinks :
    (uid : ℤ) (x : TunnelClientConnection) (c : Client) → Shrinks c (drop_connection uid x c).0
unfolding drop_connection
drop_connection-Shrinks uid x c = record {
  connections = λ u h e. h (ground (arith, get-delete u uid c.connections));
  links = λ u l h. h;
  uids = refl;
  dials = refl;
}

pub finalize_connection-Shrinks : (uid : ℤ) (c : Client) → Shrinks c (finalize_connection uid c).0
unfolding finalize_connection
finalize_connection-Shrinks uid c = elim (Option-cases (get uid c.connections)) [
  | inl gone ↦ rw (gone, finalize_connection) (Shrinks-refl c)
  | inr (x, there) ↦ rw (there, finalize_connection) (drop_connection-Shrinks uid x c)
]

pub abort_connection-Shrinks : (uid : ℤ) (c : Client) → Shrinks c (abort_connection uid c).0
unfolding abort_connection
abort_connection-Shrinks uid c = elim (Option-cases (get uid c.connections)) [
  | inl gone ↦ rw (gone, abort_connection) (Shrinks-refl c)
  | inr (x, there) ↦
      let h = drop_connection-Shrinks uid x c in
      rw (there, abort_connection)
        (record { connections = h.connections; links = h.links; uids = h.uids; dials = h.dials })
]

drop_link-Shrinks : (uid : ℤ) (c : Client) → Shrinks c (drop_link uid c).0
unfolding drop_link
drop_link-Shrinks uid c = record {
  connections = λ u h. h;
  links = λ u l h. ground (arith, get-delete u uid c.links);
  uids = refl;
  dials = refl;
}

pub finalize_link-Shrinks : (uid : ℤ) (c : Client) → Shrinks c (finalize_link uid c).0
unfolding finalize_link
finalize_link-Shrinks uid c = elim (Option-cases (get uid c.links)) [
  | inl gone ↦ rw (gone, finalize_link) (Shrinks-refl c)
  | inr (x, there) ↦ rw (there, finalize_link) (drop_link-Shrinks uid c)
]

pub finalize_dial-Shrinks : (d : Dial) (c : Client) → Shrinks c (finalize_dial d c).0
unfolding finalize_dial
finalize_dial-Shrinks d c = elim (Option-cases (get d.uid c.links)) [
  | inl gone ↦ rw (gone, finalize_dial) (Shrinks-refl c)
  | inr (l, there) ↦ elim (Bool-cases (l.dial == d.number)) [
    | inl same ↦ rw (there, same, finalize_dial) (drop_link-Shrinks d.uid c)
    | inr other ↦ rw (there, other, finalize_dial) (Shrinks-refl c)
  ]
]

pub on_connect-Shrinks :
    (uid : ℤ) (x : TunnelClientConnection) (c : Client)
    → get uid c.connections ≡ some x
    → Shrinks c (on_connect uid c).client
unfolding on_connect
on_connect-Shrinks uid x c there = record {
  connections = λ u h e.
      h (
        ground (arith, get-set u uid (record { connected = true }) c.connections, ℤ_beq_iff uid u));
  links = λ u l h. h;
  uids = refl;
  dials = refl;
}

set-placed :
    (u uid : ℤ) (x l : TunnelClientLink) (m : Dict ℤ TunnelClientLink)
    → get u (set uid x m) ≡ some l
    → ((uid ≡ u) × (l.dial ≡ x.dial)) ⊎ (get u m ≡ some l)
set-placed u uid x l m g = elim (Bool-cases (ℤ_beq uid u)) [
  | inl same ↦
      let e : Option.some x ≡ some l = ground (arith, get-set u uid x m) in
      inl ((ℤ_beq_iff uid u).0 same, cc)
  | inr other ↦ inr (ground (arith, get-set u uid x m))
]

pub start_link-IsTidy :
    (encoded : Bytes) (uid : ℤ) (a : Address) (c : Client)
    → IsTidy c
    → is_negative uid ≡ true
    → get uid c.links ≡ none
    → IsTidy (start_link encoded uid a c).client
unfolding start_link
start_link-IsTidy encoded uid a c h below unused =
    let m : Dict ℤ TunnelClientLink = set uid (record { dial = c.next_dial }) c.links in
    let placed : (u : ℤ) (l : TunnelClientLink)
        → get u m ≡ some l
        → ((uid ≡ u) × (l.dial ≡ c.next_dial)) ⊎ (get u c.links ≡ some l) =
      λ u l g. set-placed u uid (record { dial = c.next_dial }) l c.links g in
    record {
      counted = h.counted;
      numbered = h.numbered;
      negative = λ u l g. elim (placed u l g) [ inl (same, _) ↦ cc | inr old ↦ h.negative u l old ];
      dialled = λ u l g. elim (placed u l g) [
        | inl (_, d) ↦ omega (arith, d)
        | inr old ↦ omega (arith, h.dialled u l old)
      ];
      distinct = λ u v l k g f e. elim (placed u l g) [
        | inl (same, d) ↦ elim (placed v k f) [
          | inl (same', _) ↦ sym same ∙ same'
          | inr old ↦ absurd (omega (arith, d, e, h.dialled v k old))
        ]
        | inr old ↦ elim (placed v k f) [
          | inl (_, d) ↦ absurd (omega (arith, d, e, h.dialled u l old))
          | inr old' ↦ h.distinct u v l k old old' e
        ]
      ];
    }

pub serve_client-IsTidy :
    (coding : Coding) (l : LocalClient) (c : Client) → IsTidy c → IsTidy (serve_client coding l c).0
unfolding serve_client
serve_client-IsTidy coding l c h = elim (Bool-cases l.expired) [
  | inl late ↦ rw late h
  | inr fine ↦ rw fine (record {
    counted = omega (arith, h.counted);
    numbered = λ u g. elim (Bool-cases (ℤ_beq (pos c.local_uid) u)) [
      | inl same ↦
          (c.local_uid, sym ((ℤ_beq_iff (pos c.local_uid) u).0 same), h.counted, omega arith)
      | inr other ↦
          let (n, e, low, high) = h.numbered u (λ e. g (
            get-set u (pos c.local_uid) (record { connected = false }) c.connections
            ∙ rw other e)) in
          (n, e, low, omega (arith, high))
    ];
    negative = h.negative;
    dialled = h.dialled;
    distinct = h.distinct;
  })
]
