-- ===== src/Lobby/Touches.antt =====
-- A step on one game, its slot and its players.
use ups_sp.Prelude.{
  ℕ, ◌<◌, ◌≡◌, ◌⊎◌, inl, inr, refl, sym, ap, ◌∙◌, false, none, some, List, ◌==◌, arith, Bool-cases,
  length, count,
}
use ups_sp.Prelude.Int.{pos}
use ups_sp.ArrayList.{cell}
use ups_sp.ArrayList.Chains.{IsValid}
use ups_sp.Server.{Ref, Client, Game, World, in_lobby}
use ups_sp.Lobby.{Seated, Hosted, InSeat, Consistent, Seated-map}

-- A step that touches the game g, in the slot i, and its players only.
pub record Touches (w w' : World) (used used' : List ℕ) (i : ℕ) (g : Ref) : Type 0 where
  pub slots : (j : ℕ) → (j == i) ≡ false → count j used' ≡ count j used
  pub cells :
      (j : ℕ) → (j == i) ≡ false → count j used ≡ 1 → cell w'.rooms.items j ≡ cell w.rooms.items j
  pub games : (h : Ref) → (h == g) ≡ false → w'.games h ≡ w.games h
  -- no other slot has the game
  pub alone :
      (j : ℕ) (h : Ref) (game : Game) → (j == i) ≡ false → Hosted w used j h game → (h == g) ≡ false
  -- the slot had this game, if it had one
  pub own : (h : Ref) (game : Game) → Hosted w used i h game → h ≡ g
  -- a client of another game is untouched
  pub forth :
      (p : Ref) (a : Client) (h : Ref)
      → (h == g) ≡ false
      → w.clients p ≡ some a
      → a.game ≡ some h
      → w'.clients p ≡ some a
  pub back :
      (p : Ref) (a : Client) (h : Ref)
      → (h == g) ≡ false
      → w'.clients p ≡ some a
      → a.game ≡ some h
      → w.clients p ≡ some a
  pub unbound :
      (p : Ref) (a : Client)
      → w'.clients p ≡ some a
      → a.game ≡ none
      → (w.clients p ≡ some a) ⊎ (a.state ≡ in_lobby)

module _ (w w' : World) (used used' : List ℕ) (i : ℕ) (g : Ref)
    (t : Touches w w' used used' i g) where
  Seated-Touches : (h : Ref) (game : Game) → (h == g) ≡ false → Seated w h game → Seated w' h game
  Seated-Touches h game ne = Seated-map w w' h game (λ p a hp ag. t.forth p a h ne hp ag)

  Hosted-Touches :
      (j : ℕ) (h : Ref) (game : Game)
      → (j == i) ≡ false
      → Hosted w used j h game
      → Hosted w' used' j h game
  Hosted-Touches j h game ne hosted = record {
    is_used = t.slots j ne ∙ hosted.is_used;
    listed = t.cells j ne hosted.is_used ∙ hosted.listed;
    at_g = t.games h (t.alone j h game ne hosted) ∙ hosted.at_g;
    numbered = hosted.numbered;
  }

  -- After the step the invariant holds, if it holds at the slot and the game that were touched.
  pub Consistent-Touches :
      (free free' : List ℕ)
      → Consistent w used free
      → IsValid w'.rooms used' free'
      → w'.curr_rooms ≡ pos (length used')
      → w'.max_rooms ≡ pos w'.rooms.capacity
      → (count i used' ≡ 1 → (game : Game) × Hosted w' used' i g game × Seated w' g game)
      → ((c : Ref) (me : Client)
          → w'.clients c ≡ some me
          → me.game ≡ some g
          → (game : Game) × Hosted w' used' i g game × InSeat game c)
      → ((h : Ref) (game : Game) → w'.games h ≡ some game → h < w'.fresh)
      → Consistent w' used' free'
  Consistent-Touches free free' v valid counted limit here mine below = record {
    valid = valid;
    counted = counted;
    limit = limit;
    slot = λ j u. elim (Bool-cases (j == i)) [
      | inl e ↦
          let same : j ≡ i = ground arith in
          let (game, hosted, seated) = here (rw same at u) in (g, game, rw same hosted, seated)
      | inr ne ↦
          let (h, game, hosted, seated) = v.slot j (sym (t.slots j ne) ∙ u) in
          (
            h,
            game,
            Hosted-Touches j h game ne hosted,
            Seated-Touches h game (t.alone j h game ne hosted) seated,
          )
    ];
    member = λ c me h hc hg. elim (Bool-cases (h == g)) [
      | inl e ↦
          let same : h ≡ g = ground arith in
          let (game, hosted, seat) = mine c me hc (hg ∙ ap some same) in
          (i, game, rw same hosted, seat)
      | inr ne ↦
          let (j, game, hosted, seat) = v.member c me h (t.back c me h ne hc hg) hg in
          elim (Bool-cases (j == i)) [
            | inl e ↦
                let same : j ≡ i = ground arith in
                let own : h ≡ g = t.own h game (rw same at hosted) in absurd (ground arith)
            | inr apart ↦ (j, game, Hosted-Touches j h game apart hosted, seat)
          ]
    ];
    idle = λ c me hc hg. elim (t.unbound c me hc hg) [
      | inl before ↦ v.idle c me before hg
      | inr hall ↦ rw hall (refl, refl)
    ];
    below = below;
  }
