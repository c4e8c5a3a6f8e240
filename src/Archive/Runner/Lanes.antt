-- ===== src/Archive/Runner/Lanes.antt =====
-- Which workers a pass of ewsmcp/archive/runner.py runs.
use exchange_mcp.Prelude.{ℕ, ◌≡◌, refl, ◌∙◌, Bool, true, false, not, ◌&&◌, Option, none, some}
use exchange_mcp.Archive.Policy.{ArchivePolicy}
use exchange_mcp.Archive.Passes.{
  Kind, all, gc, delete, Out, kind_eq, lane_of, fresh_out, merge_capture, merge_verify, merge_embed,
  merge_gc, merge_delete,
}
use exchange_mcp.Archive.Runner.{
  Workers, Flow, going, raised, Ledger, lanes, out_of, run_locked, lane, merged, refuse, cycle,
}

module _ {W A : Type 0} (μ : W → A) where
  abbrev world_of : Flow W → W
  world_of (going out w) = w
  world_of (raised out w) = w

  abbrev Kept : W → Flow W → Type 0
  Kept w fl = μ (world_of fl) ≡ μ w

  merged-Kept :
      {B : Type 0} (merge : B → Out → Out) (out : Out) (w : W) (r : Option B × W)
      → μ r.1 ≡ μ w
      → Kept w (merged merge out r)
  merged-Kept merge out w (none, w') h = h
  merged-Kept merge out w (some b, w') h = h

  lane-Kept :
      {B : Type 0} (b : Bool) (body : W → Option B × W) (merge : B → Out → Out) (w : W)
      (fl : Flow W)
      → (b ≡ true → (v : W) → μ (body v).1 ≡ μ v)
      → Kept w fl
      → Kept w (lane b body merge fl)
  lane-Kept false body merge w fl k h = h
  lane-Kept true body merge w (raised out v) k h = h
  lane-Kept true body merge w (going out v) k h = merged-Kept merge out w (body v) (k refl v ∙ h)

  refuse-Kept : (b : Bool) (w : W) (fl : Flow W) → Kept w fl → Kept w (refuse b fl)
  refuse-Kept true w (going out v) h = h
  refuse-Kept true w (raised out v) h = h
  refuse-Kept false w fl h = h

  out_of-Kept : (w : W) (fl : Flow W) → Kept w fl → μ (out_of fl).1 ≡ μ w
  out_of-Kept w (going out v) h = h
  out_of-Kept w (raised out v) h = h

  -- What each worker must keep, if the pass runs it.
  abbrev pub Keeping : Workers W → Kind → Bool → Bool → Type 0
  Keeping ws kind dry_run allow_delete =
      ((v : W) → μ (ws.capture dry_run v).1 ≡ μ v)
      × ((lane_of Kind.verify kind && not dry_run) ≡ true → (v : W) → μ (ws.verify v).1 ≡ μ v)
      × ((lane_of Kind.embed kind && not dry_run) ≡ true → (v : W) → μ (ws.embed v).1 ≡ μ v)
      × (kind_eq kind gc ≡ true → (v : W) → μ (ws.gc dry_run v).1 ≡ μ v)
      × ((lane_of delete kind && allow_delete) ≡ true
          → (id : ℕ) (v : W) → μ (ws.delete id dry_run v).1 ≡ μ v)

  lanes-Kept :
      (ws : Workers W) (id : ℕ) (kind : Kind) (dry_run allow_delete : Bool) (w : W)
      → Keeping ws kind dry_run allow_delete
      → Kept w (lanes ws id kind dry_run allow_delete w)
  unfolding lanes
  lanes-Kept ws id kind dry_run allow_delete w (capture, verify, embed, sweep, remove) =
      let f0 = going fresh_out w in
      let f1 = lane (lane_of Kind.capture kind) (ws.capture dry_run) merge_capture f0 in
      let k1 =
        lane-Kept (lane_of Kind.capture kind) (ws.capture dry_run) merge_capture w f0 (λ e. capture)
          refl in
      let b2 = lane_of Kind.verify kind && not dry_run in
      let f2 = lane b2 ws.verify merge_verify f1 in
      let k2 = lane-Kept b2 ws.verify merge_verify w f1 verify k1 in
      let b3 = lane_of Kind.embed kind && not dry_run in
      let f3 = lane b3 ws.embed merge_embed f2 in
      let k3 = lane-Kept b3 ws.embed merge_embed w f2 embed k2 in
      let f4 = lane (kind_eq kind gc) (ws.gc dry_run) merge_gc f3 in
      let k4 = lane-Kept (kind_eq kind gc) (ws.gc dry_run) merge_gc w f3 sweep k3 in
      let f5 = refuse (lane_of delete kind && not allow_delete) f4 in
      lane-Kept (lane_of delete kind && allow_delete) (ws.delete id dry_run) merge_delete w f5
        (λ e. remove e id) (refuse-Kept (lane_of delete kind && not allow_delete) w f4 k4)

  pub run_locked-Kept :
      (ws : Workers W) (kind : Kind) (dry_run allow_delete start_down finish_down : Bool)
      (l : Ledger W)
      → Keeping ws kind dry_run allow_delete
      → μ (run_locked ws kind dry_run allow_delete start_down finish_down l).1.world ≡ μ l.world
  unfolding run_locked
  run_locked-Kept ws kind dry_run allow_delete start_down finish_down l h =
      let fl = lanes ws l.next_id kind dry_run allow_delete l.world in
      let k =
        out_of-Kept l.world fl (lanes-Kept ws l.next_id kind dry_run allow_delete l.world h) in
      go start_down finish_down k
    where
      world : W
      world = (out_of (lanes ws l.next_id kind dry_run allow_delete l.world)).1

      go :
          (b c : Bool)
          → μ world ≡ μ l.world
          → μ (run_locked ws kind dry_run allow_delete b c l).1.world ≡ μ l.world
      go true c k = refl
      go false true k = k
      go false false k = k

  -- A background cycle without ARCHIVE_DELETE_AUTO runs neither the deleter nor the sweep: whatever
  -- the other three workers keep of the world, the cycle keeps, also if it raises.
  pub cycle-Kept :
      (make : ArchivePolicy → Workers W)
      → ((p : ArchivePolicy) (v : W) → μ ((make p).capture false v).1 ≡ μ v)
      → ((p : ArchivePolicy) (v : W) → μ ((make p).verify v).1 ≡ μ v)
      → ((p : ArchivePolicy) (v : W) → μ ((make p).embed v).1 ≡ μ v)
      → (policy : Option ArchivePolicy) (start_down finish_down : Bool) (l : Ledger W)
      → μ (cycle make policy false start_down finish_down l).1.world ≡ μ l.world
  unfolding cycle
  cycle-Kept make c v e none start_down finish_down l = refl
  cycle-Kept make c v e (some p) start_down finish_down l =
      run_locked-Kept (make p) all false false start_down finish_down l
        (c p, (λ _. v p), (λ _. e p), (λ h. cc), λ h. cc)
