-- ===== src/Lobby/Enters.antt =====
-- A client who is in no game, and what the start and a login leave.
use ups_sp.Prelude.{
  ℕ, ◌≤◌, ◌≡◌, ◌≢◌, inl, inr, refl, sym, ap, ◌∙◌, false, none, some, List, [], Bytes, Bool-cases,
  ◌==◌, arith, Option-cases,
}
use ups_sp.Prelude.Int.{pos}
use ups_sp.ArrayList.Inserts.{from_to, length-from_to}
use ups_sp.Server.{Ref, Client, Game, World, unlogged, in_lobby}
use ups_sp.Commands.Rooms.{is_in_room, is_gaming}
use ups_sp.Commands.Login.Logs.{Logged}
use ups_sp.Connections.Starts.{Started}
use ups_sp.Lobby.{Seated-map, Hosted, Consistent}
use ups_sp.Lobby.Places.{Place, waits, plays, place}

-- only the client c changes, who has no game before and after
pub record Aside (w w' : World) (c : Ref) : Type 0 where
  pub others : (q : Ref) → q ≢ c → w'.clients q ≡ w.clients q
  pub was_idle : (a : Client) → w.clients c ≡ some a → a.game ≡ none
  pub is_idle :
      (a : Client)
      → w'.clients c ≡ some a
      → (a.game ≡ none) × (is_in_room a.state ≡ false) × (is_gaming a.state ≡ false)
  pub games : w'.games ≡ w.games
  pub rooms : w'.rooms ≡ w.rooms
  pub counted : w'.curr_rooms ≡ w.curr_rooms
  pub limit : w'.max_rooms ≡ w.max_rooms
  pub next : w.fresh ≤ w'.fresh

module _ (w w' : World) (used free : List ℕ) (c : Ref) (v : Consistent w used free)
    (aside : Aside w w' c) where
  Hosted-Aside : (i : ℕ) (g : Ref) (game : Game) → Hosted w used i g game → Hosted w' used i g game
  Hosted-Aside i g game at = record {
    is_used = at.is_used;
    listed = rw aside.rooms at.listed;
    at_g = rw aside.games at.at_g;
    numbered = at.numbered;
  }

  kept :
      (p : Ref) (a : Client) (g : Ref)
      → w.clients p ≡ some a
      → a.game ≡ some g
      → w'.clients p ≡ some a
  kept p a g hp ag =
      aside.others p (λ same. let idle = aside.was_idle a (rw same at hp) in ground (arith, ag))
      ∙ hp

  pub Consistent-Aside : Consistent w' used free
  Consistent-Aside = record {
    valid = rw aside.rooms v.valid;
    counted = aside.counted ∙ v.counted;
    limit = aside.limit ∙ v.limit ∙ ap (λ l. pos l.capacity) (sym aside.rooms);
    slot = λ i u.
        let (g, game, at, seated) = v.slot i u in
        (
          g,
          game,
          Hosted-Aside i g game at,
          Seated-map w w' g game (λ p a hp ag. kept p a g hp ag) seated,
        );
    member = λ p a g hp ag. elim (Bool-cases (p == c)) [
      | inl e ↦
          let same : p ≡ c = ground arith in
          let idle = (aside.is_idle a (rw same at hp)).0 in absurd (ground arith)
      | inr e ↦
          let (i, game, at, seat) =
            v.member p a g (sym (aside.others p (λ same. ground arith)) ∙ hp) ag in
          (i, game, Hosted-Aside i g game at, seat)
    ];
    idle = λ p a hp ag. elim (Bool-cases (p == c)) [
      | inl e ↦
          let same : p ≡ c = ground arith in
          let (no_game, room, gaming) = aside.is_idle a (rw same at hp) in (room, gaming)
      | inr e ↦ v.idle p a (sym (aside.others p (λ same. ground arith)) ∙ hp) ag
    ];
    below = λ g game at.
        let low = v.below g game (rw aside.games at at) in omega (arith, low, aside.next);
  }

-- a client who is not logged in has no game
not_placed :
    (w : World) (c g : Ref) (me : Client) (game : Game)
    → me.state ≡ unlogged
    → Place w c me g game
    → ⊥
not_placed w c g me game hs (waits s t alone) = cc
not_placed w c g me game hs (plays o opp s seats ne ho og sa sb) = ground arith

unlogged-none :
    (w : World) (used free : List ℕ) (c : Ref) (me : Client)
    → Consistent w used free
    → w.clients c ≡ some me
    → me.state ≡ unlogged
    → me.game ≡ none
unlogged-none w used free c me v hc hs = elim (Option-cases me.game) [
  | inl e ↦ e
  | inr (g, e) ↦
      let (i, game, at, here) = place w used free v c me g hc e in
      absurd (not_placed w c g me game hs here)
]

-- An accepted login keeps the invariant.
pub Consistent-Logged :
    (w w' : World) (used free : List ℕ) (c : Ref) (me : Client) (name : Bytes)
    → Consistent w used free
    → w.clients c ≡ some me
    → me.state ≡ unlogged
    → Logged w w' c (record me { state = in_lobby; name = name }) name
    → ((q : Ref) → q ≢ c → w'.clients q ≡ w.clients q)
    → Consistent w' used free
Consistent-Logged w w' used free c me name v hc hs logged others =
    let idle = unlogged-none w used free c me v hc hs in
    Consistent-Aside w w' used free c v (record {
      others = others;
      was_idle = λ a ha. ground (arith, idle);
      is_idle = λ a ha.
          let it : a ≡ record me { state = in_lobby; name = name } =
            ground (arith, logged.client) in
          rw it (idle, refl, refl);
      games = logged.games;
      rooms = logged.rooms;
      counted = logged.list.1;
      limit = logged.list.2;
      next = ground (arith, logged.list.3);
    })

-- The started server is consistent.
pub Consistent-Started : (w : World) (r p : ℕ) → Started r p w → Consistent w [] (from_to 0 r)
Consistent-Started w r p s = record {
  valid = s.free_rooms;
  counted = s.counts.0;
  limit = s.limits.0 ∙ ap pos (ground (arith, length-from_to 0 r, s.free_rooms.total));
  slot = λ i u. absurd (omega arith);
  member = λ c me g hc hg. absurd (ground (arith, s.no_client c));
  idle = λ c me hc hg. absurd (ground (arith, s.no_client c));
  below = λ g game at. absurd (ground (arith, s.no_game g));
}
