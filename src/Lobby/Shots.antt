-- ===== src/Lobby/Shots.antt =====
-- `cmd_game_fire` and the invariant of the rooms.
use ups_sp.Prelude.{ℕ, ◌≡◌, refl, some, List, ◌∷◌, erase, arith}
use ups_sp.ArrayList
use ups_sp.ArrayList.Deletes.{Deleted, delete-Deleted}
use ups_sp.Server.{Ref, Client, Game, World, Libc, Exit, in_game, playing, started, success}
use ups_sp.Commands.Args.{Args}
use ups_sp.Commands.Fire.{target_board, cmd_game_fire}
use ups_sp.Commands.Fire.Shots.{Shot}
use ups_sp.Commands.Fire.Turns.{Aims}
use ups_sp.Commands.Fire.Moves.{Moved}
use ups_sp.Commands.Fire.Battles.{Fired, missed, struck, won, cmd_game_fire-Fired}
use ups_sp.Commands.Fire.Rallies.{Duel, Target}
use ups_sp.Lobby.{Hosted, Consistent, Keeps}
use ups_sp.Lobby.Places.{Place, waits, plays, place}
use ups_sp.Lobby.Closes.{Consistent-Gone, Gone-Over}
use ups_sp.Lobby.Moves.{Consistent-Plays}

module _ (libc : Libc) (w : World) (used free : List ℕ) (v : Consistent w used free) (i : ℕ)
    (c o g : Ref) (me opp : Client) (game : Game) (rooms : ArrayList.ArrayList Ref) (argv : Args)
    (x y : ℕ) (at : Hosted w used i g game) (duel : Duel w c o g me opp game rooms)
    (begun : game.state ≡ started) where
  Consistent-Shot :
      (w' : World) (game' : Game)
      → Shot w w' c o g me opp game'
      → Moved me.player_num game game'
      → Consistent w' used free
  Consistent-Shot w' game' shot moved =
      let op = duel.opposed in
      Consistent-Plays w w' used free i c o g me opp game game' in_game playing v at op.mine
        op.other op.apart op.in_it duel.opp_in_it begun
        (record {
          client = shot.waits;
          opponent = shot.plays;
          third = shot.others;
          played = shot.game;
          other_games = shot.other_games;
          list = shot.list;
          gaming = refl;
          gaming' = refl;
          first_player = moved.first_player;
          second_player = moved.second_player;
          number = moved.number;
          stage = moved.stage;
        })
        duel.seats

  fired-Keeps :
      (w' : World) (exit : Exit)
      → cmd_game_fire libc c argv w ≡ some (exit, w')
      → Fired w w' c o g me opp game rooms y x
      → Keeps (cmd_game_fire libc c argv w)
  fired-Keeps w' exit run (missed game' e shot now now' l moved) =
      (exit, w', used, free, run, Consistent-Shot w' game' shot moved)
  fired-Keeps w' exit run (struck n game' e shot now now' l moved) =
      (exit, w', used, free, run, Consistent-Shot w' game' shot moved)
  fired-Keeps w' exit run (won n e l over) =
      let op = duel.opposed in
      let (rooms', deleted, del, size) = delete-Deleted w.rooms i used free v.valid at.is_used in
      let same : rooms' ≡ rooms = ground (arith, deleted, duel.deleted, at.numbered) in
      let del' : Deleted w.rooms i used free rooms = rw same at del in
      (
        exit,
        w',
        erase i used,
        i ∷ free,
        run,
        Consistent-Gone w w' used free i g game rooms v at del' (
            Gone-Over w w' used free i c o g me opp game rooms v at op.mine op.other op.in_it
              duel.opp_in_it duel.seats over),
      )

  hosted-Keeps :
      Aims libc argv me x y
      → Target (target_board me.player_num game) y x
      → Keeps (cmd_game_fire libc c argv w)
  hosted-Keeps aims target =
      let (w', run, fired) =
        cmd_game_fire-Fired libc w c o g me opp game argv x y rooms duel.opposed duel.seats aims
          duel.side duel.side' duel.deleted target in
      fired-Keeps w' success run fired

begun-Place :
    (w : World) (c g : Ref) (me : Client) (game : Game)
    → me.state ≡ playing
    → Place w c me g game
    → game.state ≡ started
begun-Place w c g me game hs (waits s t alone) = absurd (cc)
begun-Place w c g me game hs (plays o opp s seats ne ho og sa sb) = s

-- A shot in a game of a consistent server, in which each player faces a fleet that is not sunk, by
-- the player whose turn it is, at an empty square or at a ship's square, keeps the invariant,
-- whether it misses, hits or ends the game.
pub cmd_game_fire-Keeps :
    (libc : Libc) (w : World) (used free : List ℕ) (c o g : Ref) (me opp : Client) (game : Game)
    (rooms : ArrayList.ArrayList Ref) (argv : Args) (x y : ℕ)
    → Consistent w used free
    → Duel w c o g me opp game rooms
    → Aims libc argv me x y
    → Target (target_board me.player_num game) y x
    → Keeps (cmd_game_fire libc c argv w)
cmd_game_fire-Keeps libc w used free c o g me opp game rooms argv x y v duel aims target =
    let (i, game', at, here) = place w used free v c me g duel.opposed.mine duel.opposed.in_it in
    let same : game' ≡ game = ground (arith, at.at_g, duel.opposed.at_g) in
    let at' : Hosted w used i g game = rw same at at in
    let begun = begun-Place w c g me game duel.turn (rw same at here) in
    hosted-Keeps libc w used free v i c o g me opp game rooms argv x y at' duel begun aims target
