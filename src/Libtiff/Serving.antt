-- ===== src/Libtiff/Serving.antt =====
-- libtiff through the callbacks gets what it would get from the file itself.
use gedtm30api.Base.{
  ℕ, zero, suc, ◌+◌, ◌≤◌, ◌<◌, ◌≡◌, refl, ap, ap₂, ◌∙◌, some, List, [], length, slice, arith,
}
use gedtm30api.Base.Int.{ℤ, pos, negsuc, two63, add64, add64_small}
use gedtm30api.Base.Run.{ok}
use gedtm30api.Base.Io.{Io}
use gedtm30api.Source.Reader.{Read, Whence}
use gedtm30api.Registry.{RemoteEntry, Registry, go_remote_read}
use gedtm30api.Registry.Remote.{IsBacked, Reads, go_remote_read-slice}
use gedtm30api.Libtiff.{
  RHandle, Reply, Script, done, read, seek, ask_size, uint64, rh_seek, rh_reply, rh_read,
  run_script,
}

module _ (file : List ℕ) where
  -- A read of the file at `p`: the bytes, and the position behind them.
  abbrev pub file_reply : RHandle → ℕ → ℕ → Reply × RHandle
  file_reply rh p n =
      (record { front = slice file p n; count = n }, record rh { position = pos (p + n) })

  -- The position, where it is not negative.
  abbrev at : RHandle → ℕ
  at rh = elim rh.position [ pos p ↦ p | negsuc p ↦ 0 ]

  -- A call into libtiff with the file at hand.
  unfoldable pub run_file : {X : Type 0} → Script X → RHandle → X × RHandle
  run_file (done x) rh = (x, rh)
  run_file (read n k) rh = let (r, rh') = file_reply rh (at rh) n in run_file (k r) rh'
  run_file (seek off whence k) rh =
      let rh' = rh_seek rh off whence in run_file (k (uint64 rh'.position)) rh'
  run_file (ask_size k) rh = run_file (k (uint64 rh.size)) rh

  -- The call reads only what the file has.
  unfoldable pub StaysInside : {X : Type 0} → Script X → RHandle → Type 0
  StaysInside (done x) rh = Unit
  StaysInside (read n k) rh =
      (rh.position ≡ pos (at rh))
      × (at rh + n ≤ length file)
      × StaysInside (k (file_reply rh (at rh) n).0) (file_reply rh (at rh) n).1
  StaysInside (seek off whence k) rh =
      StaysInside (k (uint64 (rh_seek rh off whence).position)) (rh_seek rh off whence)
  StaysInside (ask_size k) rh = StaysInside (k (uint64 rh.size)) rh

rh_reply-whole :
    (file : List ℕ) (rh : RHandle) (p n : ℕ)
    → p + n < two63
    → rh.position ≡ pos p
    → rh_reply rh n (record { bytes = slice file p n; count = pos n }) ≡ file_reply file rh p n
unfolding rh_reply
rh_reply-whole file rh p zero small e =
    ap (λ q. (record { front = []; count = 0 }, record rh { position = q }))
      (e ∙ ap pos (omega arith))
rh_reply-whole file rh p (suc n) small e =
    let next : add64 rh.position (pos (suc n)) ≡ pos (p + suc n) =
      ap (λ q. add64 q (pos (suc n))) e ∙ add64_small p (suc n) small in
    ap (λ q. (record { front = slice file p (suc n); count = suc n }, record rh { position = q }))
      next

rh_seek-id : (rh : RHandle) (off : ℕ) (whence : Whence) → (rh_seek rh off whence).id ≡ rh.id
unfolding rh_seek
rh_seek-id rh off Whence.start = refl
rh_seek-id rh off Whence.current = refl
rh_seek-id rh off Whence.end = refl
rh_seek-id rh off (Whence.other w) = refl

module _ {A S : Type 0} (read_at : A → ℤ → ℕ → Io S Read) (P : S → Type 0) (file : List ℕ)
    (small : length file < two63) (g : Registry A) (id : ℕ) (e : RemoteEntry A)
    (found : g.entries id ≡ some e) (backed : IsBacked file e)
    (reads : Reads read_at P file small e.reader) where
  rh_read-file_reply :
      (rh : RHandle) (p n : ℕ) (s : S)
      → P s
      → rh.id ≡ id
      → rh.position ≡ pos p
      → p + n ≤ length file
      → (s' : S) × (rh_read read_at g rh n s ≡ (ok (file_reply file rh p n), s')) × P s'
  unfolding rh_read
  rh_read-file_reply rh p n s ps own position inside =
      let (s', run, p') =
        go_remote_read-slice read_at P file small g id e p n s found backed reads ps inside in
      let reply : go_remote_read read_at g rh.id rh.position n s
          ≡ (ok (record { bytes = slice file p n; count = pos n }), s') =
        ap₂ (λ i q. go_remote_read read_at g i q n s) own position ∙ run in
      (s', rw reply (ap (λ v. (ok v, s')) (rh_reply-whole file rh p n (omega arith) position)), p')

  pub run_script-run_file :
      {X : Type 0} (script : Script X) (rh : RHandle) (s : S)
      → P s
      → rh.id ≡ id
      → StaysInside file script rh
      → (s' : S) × (run_script read_at g script rh s ≡ (ok (run_file file script rh), s'))
        × P s'
        × ((run_file file script rh).1.id ≡ id)
  unfolding run_script run_file StaysInside
  run_script-run_file (done x) rh s ps own stays = (s, refl, ps, own)
  run_script-run_file (read n k) rh s ps own stays =
      let (position, inside, next) = stays in
      let (s1, run, p1) = rh_read-file_reply rh (at file rh) n s ps own position inside in
      let (r, rh') = file_reply file rh (at file rh) n in
      let (s2, rest, p2, own') = run_script-run_file (k r) rh' s1 p1 own next in
      (s2, rw run rest, p2, own')
  run_script-run_file (seek off whence k) rh s ps own stays =
      let rh' = rh_seek rh off whence in
      run_script-run_file (k (uint64 rh'.position)) rh' s ps (rh_seek-id rh off whence ∙ own) stays
  run_script-run_file (ask_size k) rh s ps own stays =
      run_script-run_file (k (uint64 rh.size)) rh s ps own stays
