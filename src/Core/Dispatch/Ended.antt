-- ===== src/Core/Dispatch/Ended.antt =====
-- DispatchStream of internal/aclweb/core/core.go: how every call ends.
use acl_edit_only.Base.{
  ℕ, ◌≡◌, ◌≢◌, refl, sym, subst, inl, inr, Bool, true, [], Option, some, Option-cases, arith,
  Bool-cases, ◌==◌, ==_iff,
}
use acl_edit_only.Base.Text.{codes}
use acl_edit_only.Base.Result.{ok, err, Check}
use acl_edit_only.Core.Rows.{
  ChangeRequest, ChangeArtifact, User, Db, RequestState, dispatching, is_awaiting, find_request,
}
use acl_edit_only.Core.Rows.Updates.{find_request-id}
use acl_edit_only.Core.Spawn.{Machine, ServiceConfig, run_agent}
use acl_edit_only.Core.Service.{State, CoreError, forbidden, not_awaiting}
use acl_edit_only.Core.Life.{state_in}
use acl_edit_only.Core.Dispatch.{awaiting, examine, dispatch_stream}
use acl_edit_only.Core.Dispatch.Settles.{Told, Ends}
use acl_edit_only.Core.Dispatch.Moves.{Untouched, kept, loses_rule}
use acl_edit_only.Core.Dispatch.Examined.{unchanged, examine-Ends}

module _ {W : Type 0} (m : Machine W) (cfg : ServiceConfig) where
  -- what the first query finds
  pub awaiting-found :
      (id : ℕ) (db : Db) (r : ChangeRequest) (a : ChangeArtifact)
      → awaiting id db ≡ some (r, a)
      → (find_request id db.requests ≡ some r) × (is_awaiting r.state ≡ true)
  unfolding awaiting
  awaiting-found id db r a h = ground arith

  found-Ends :
      (stream : Bool) (actor : User) (id : ℕ) (s : State W) (r : ChangeRequest)
      → (find_request id s.db.requests ≡ some r) × (is_awaiting r.state ≡ true)
      → Ends m id s.db.requests
          (examine m cfg stream actor r (run_agent m cfg (codes "snapshot") [] s.world) s.db)
  found-Ends stream actor id s r h =
      let e = find_request-id id s.db.requests r h.0 in
      subst
        (λ k.
          Ends m k s.db.requests
            (examine m cfg stream actor r (run_agent m cfg (codes "snapshot") [] s.world) s.db))
        e
        (examine-Ends m cfg stream actor r (run_agent m cfg (codes "snapshot") [] s.world) s.db
          (subst (λ k. find_request k s.db.requests ≡ some r) (sym e) h.0, h.1))

  pub dispatch_stream-Ends :
      (stream : Bool) (actor : User) (id : ℕ) (s : State W)
      → Ends m id s.db.requests (dispatch_stream m cfg stream actor id s)
  unfolding dispatch_stream
  dispatch_stream-Ends stream actor id s = elim (Option-cases (awaiting id s.db)) [
    | inl e ↦ rw e (
        ground (
          arith,
          unchanged m cfg id (err (forbidden actor.role)) s refl,
          unchanged m cfg id (err (not_awaiting id)) s refl,
        ))
    | inr (ra, e) ↦ rw e (
        ground (
          arith,
          unchanged m cfg id (err (forbidden actor.role)) s refl,
          unchanged m cfg id (err (not_awaiting id)) s refl,
          found-Ends stream actor id s ra.0 (awaiting-found id s.db ra.0 ra.1 e),
        ))
  ]

  not_dispatching :
      (result : Check CoreError) (before after : Option RequestState)
      → Told result before after
      → before ≢ some dispatching
      → after ≢ some dispatching
  not_dispatching (ok u) before after (inl e) h d = ground arith
  not_dispatching (ok u) before after (inr e) h d = ground arith
  not_dispatching (err e) before after t h d = ground arith

  revoked_only :
      (before after : Option RequestState)
      → Untouched before after
      → before ≢ some dispatching
      → after ≢ some dispatching
  revoked_only before after (kept a) h d = h d
  revoked_only before after loses_rule h d = ground arith

  -- Where the context of a call of `DispatchStream` is still open at its end, the result tells what has
  -- become of the request: done is that it is active or revoked, and each error that follows the claim
  -- or a drift has its state; after any other error it is as it was. Every other request is as it was,
  -- or it was active and is revoked. So no request at all is dispatching that was not before.
  pub dispatch_stream_settles :
      (stream : Bool) (actor : User) (id : ℕ) (s : State W)
      → m.ctx_open (dispatch_stream m cfg stream actor id s).1.world ≡ true
      → Told
          (dispatch_stream m cfg stream actor id s).0
          (state_in id s.db.requests)
          (state_in id (dispatch_stream m cfg stream actor id s).1.db.requests)
        × ((k : ℕ)
            → k ≢ id
            → Untouched
                (state_in k s.db.requests)
                (state_in k (dispatch_stream m cfg stream actor id s).1.db.requests))
        × ((k : ℕ)
            → state_in k s.db.requests ≢ some dispatching
            → state_in k (dispatch_stream m cfg stream actor id s).1.db.requests ≢ some dispatching)
  dispatch_stream_settles stream actor id s h =
      let ends = dispatch_stream-Ends stream actor id s in
      let t = ends.told h in
      (
        t,
        ends.others,
        λ k. elim (Bool-cases (k == id)) [
          | inl e ↦
              rw ((==_iff k id).0 e)
                (not_dispatching (dispatch_stream m cfg stream actor id s).0 _ _ t)
          | inr e ↦ revoked_only _ _ (ends.others k (λ d. ground (arith, ==_iff k id)))
        ],
      )
