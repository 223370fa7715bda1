-- ===== src/Batches/Create/Laws.antt =====
-- apps/api/src/routes/batches.rs: what a batch is made from, and how it stands after the request.
use mathlib.Core.Path.{subst}
use migration_platform.Prelude.{
  ensure, ℕ, ◌≡◌, ◌⊎◌, refl, inl, inr, some, List, [], ◌∷◌, ◌++◌, ok, err, arith, >>=-eq-ok, All,
  ensure-eq-ok, ok_or, ok_or-eq-ok, Has, ◌&&◌, Option, none, Result-cases, Option-cases, Bool-cases,
  ◌==◌,
}
use migration_platform.Text.{Str, lit, str_eq, str_eq_iff}
use migration_platform.Api.{ApiError, ApiResult, external}
use migration_platform.Sources.Types.{
  SourceRequest, RegisteredSource, resolved_object, Connector, Registry,
}
use migration_platform.Sources.Request.{parse_source_request}
use migration_platform.Sources.Registry.{
  resolve, resolve_object, format_from_filename, find_connector, require_connector,
}
use migration_platform.Sources.Registry.Roundtrip.{resolve-Owned}
use migration_platform.Jobs.Types.{operators, require_role, BridgeError, bridge_text}
use migration_platform.Batches.Types.{
  running, failed, Batch, World, Caller, find_batch, update_batches,
}
use migration_platform.Batches.Create.{
  BatchCreate, archive_name, check_connector, batch_input, workflow_id, new_batch, insert_batch,
  judge_start, set_failed, set_running, record_audit, start_batch, check_create, create_batch,
}

-- No connector is named, or one that the organisation has.
abbrev pub OwnConnector : ℕ → Option ℕ → Registry → Type 0
OwnConnector org none registry = Unit
OwnConnector org (some id) registry = Has (λ k. (k.id ≡ id) × (k.org_id ≡ org)) registry.connectors

find_connector-Own :
    (org id : ℕ) (kind : Str) (cs : List Connector)
    → find_connector org id cs ≡ some kind
    → Has (λ k. (k.id ≡ id) × (k.org_id ≡ org)) cs
unfolding find_connector
find_connector-Own org id kind [] h = cc h
find_connector-Own org id kind (c ∷ cs) h = elim (Bool-cases ((c.id == id) && (c.org_id == org))) [
  | inl at ↦ inl (ground arith, ground arith)
  | inr away ↦ inr (find_connector-Own org id kind cs (ground arith))
]

check_connector-Own :
    (org : ℕ) (id : Option ℕ) (registry : Registry)
    → check_connector org id registry ≡ ok tt
    → OwnConnector org id registry
unfolding check_connector require_connector
check_connector-Own org none registry h = tt
check_connector-Own org (some id) registry h =
    let (kind, e, h₁) = >>=-eq-ok (ok_or (find_connector org id registry.connectors) _) _ h in
    find_connector-Own org id kind registry.connectors (ok_or-eq-ok _ _ e)

-- What a batch is made from.
pub record Permitted (debug_text : Str → Str) (c : Caller) (req : BatchCreate) (registry : Registry)
    (src : RegisteredSource) : Type 0 where
  pub allowed : require_role c.role operators ≡ ok tt
  pub licensed : c.gate ≡ ok tt
  pub asked : SourceRequest
  pub named : parse_source_request debug_text req.source_ref ≡ ok asked
  pub found : resolve c.org asked registry ≡ ok (resolved_object src)
  pub own_source : src.org_id ≡ c.org
  pub archived : format_from_filename (archive_name src) ≡ lit "archive"
  pub own_connector : OwnConnector c.org req.connector_id registry

-- There is a batch with the id, and all that have it stand so.
abbrev pub Stands : (Batch → Type 0) → ℕ → List Batch → Type 0
Stands P id bs = Has (λ b. b.id ≡ id) bs × All (λ b. b.id ≡ id → P b) bs

-- What others do to the tables keeps every batch, though it may change it.
abbrev pub Keeps : (World → World) → Type 0
Keeps f = (id : ℕ) (w : World) → Has (λ b. b.id ≡ id) w.batches → Has (λ b. b.id ≡ id) (f w).batches

update_batches-Has :
    (id : ℕ) (f : Batch → Batch) (bs : List Batch)
    → ((b : Batch) → (f b).id ≡ b.id)
    → Has (λ b. b.id ≡ id) bs
    → Has (λ b. b.id ≡ id) (update_batches id f bs)
unfolding update_batches
update_batches-Has id f [] same h = h
update_batches-Has id f (b ∷ bs) same (inl e) = inl (ground (arith, same b))
update_batches-Has id f (b ∷ bs) same (inr h) = inr (update_batches-Has id f bs same h)

update_batches-All :
    (P : Batch → Type 0) (id : ℕ) (f : Batch → Batch) (bs : List Batch)
    → ((b : Batch) → P (f b))
    → All (λ b. b.id ≡ id → P b) (update_batches id f bs)
unfolding update_batches
update_batches-All P id f [] h = tt
update_batches-All P id f (b ∷ bs) h = elim (Bool-cases (b.id == id)) [
  | inl same ↦ rw same (λ e. h b, update_batches-All P id f bs h)
  | inr other ↦ rw other (λ e. absurd (ground arith), update_batches-All P id f bs h)
]

update_batches-Stands :
    (P : Batch → Type 0) (id : ℕ) (f : Batch → Batch) (bs : List Batch)
    → ((b : Batch) → P (f b))
    → ((b : Batch) → (f b).id ≡ b.id)
    → Has (λ b. b.id ≡ id) bs
    → Stands P id (update_batches id f bs)
update_batches-Stands P id f bs h same there =
    (update_batches-Has id f bs same there, update_batches-All P id f bs h)

resolve_object-found :
    (org : ℕ) (req : SourceRequest) (reg : Registry) (src : RegisteredSource)
    → resolve_object org req reg ≡ ok src
    → resolve org req reg ≡ ok (resolved_object src)
unfolding resolve_object
resolve_object-found org req reg src h = ground arith

module _ (debug_text : Str → Str) where
  check_create-Permitted :
      (c : Caller) (req : BatchCreate) (registry : Registry) (src : RegisteredSource)
      → check_create debug_text c req registry ≡ ok src
      → Permitted debug_text c req registry src
  unfolding check_create
  check_create-Permitted c req registry src h =
      let (u₁, may, h₁) = >>=-eq-ok (require_role c.role operators) _ h in
      let (u₂, gate, h₂) = >>=-eq-ok c.gate _ h₁ in
      let (asked, named, h₃) = >>=-eq-ok (parse_source_request debug_text req.source_ref) _ h₂ in
      let (found, at, h₄) = >>=-eq-ok (resolve_object c.org asked registry) _ h₃ in
      let (u₃, archive, h₅) =
        >>=-eq-ok (ensure (str_eq (format_from_filename (archive_name found)) (lit "archive")) _) _
          h₄ in
      let (u₄, connector, h₆) = >>=-eq-ok (check_connector c.org req.connector_id registry) _ h₅ in
      let same : found ≡ src = ground arith in
      let resolved = resolve_object-found c.org asked registry found at in
      let made : Permitted debug_text c req registry found = record {
        allowed = may;
        licensed = gate;
        asked = asked;
        named = named;
        found = resolved;
        own_source = resolve-Owned c.org asked registry (resolved_object found) resolved;
        archived =
            (str_eq_iff (format_from_filename (archive_name found)) (lit "archive")).0
              (ensure-eq-ok _ _ archive);
        own_connector = check_connector-Own c.org req.connector_id registry connector;
      } in
      subst (Permitted debug_text c req registry) same made

  -- How the batch of a permitted request stands, by the answer of the bridge.
  abbrev pub Started :
      Caller → BatchCreate → RegisteredSource → World → ApiResult Batch × World → Type 0
  Started c req src w result =
      ((e : BridgeError) × (c.start (workflow_id c) (lit "BatchWorkflow")
            (batch_input c.org w.next_id req src)
          ≡ err e)
        × (result.0 ≡ err (external (lit "temporal: " ++ bridge_text e)))
        × Stands (λ b. b.status ≡ failed) w.next_id result.1.batches)
      ⊎ ((run_id : Str) × (c.start (workflow_id c) (lit "BatchWorkflow")
              (batch_input c.org w.next_id req src)
            ≡ ok run_id)
          × Stands (λ b. (b.status ≡ running) × (b.temporal_run_id ≡ some run_id)) w.next_id
              result.1.batches)

  record_audit-batches :
      (c : Caller) (b : Batch) (w : World) → (record_audit c b w).1.batches ≡ w.batches
  unfolding record_audit
  record_audit-batches c b w = ground arith

  judge_start-ok :
      (c : Caller) (id : ℕ) (run_id : Str) (w : World)
      → (judge_start c id (ok run_id) w).1.batches
        ≡ update_batches id (set_running c.now run_id) w.batches
  unfolding judge_start
  judge_start-ok c id run_id w =
      let stored = update_batches id (set_running c.now run_id) w.batches in
      elim (Option-cases (find_batch (λ b. b.id == id) stored)) [
        | inl e ↦ rw (judge_start, e)
        | inr (row, e) ↦
            rw (judge_start, e) (record_audit-batches c row (record w { batches = stored }))
      ]

  insert_batch-Has :
      (c : Caller) (req : BatchCreate) (src : RegisteredSource) (w : World)
      → Has (λ b. b.id ≡ w.next_id) (insert_batch (new_batch c w.next_id req src) w).batches
  unfolding insert_batch new_batch
  insert_batch-Has c req src w = inl refl

  start_batch-Started :
      (c : Caller) (req : BatchCreate) (src : RegisteredSource) (w : World)
      → Keeps c.others
      → Started c req src w (start_batch c req src w)
  unfolding start_batch judge_start set_failed set_running
  start_batch-Started c req src w keeps =
      let there =
        keeps w.next_id (insert_batch (new_batch c w.next_id req src) w)
          (insert_batch-Has c req src w) in
      let changed = c.others (insert_batch (new_batch c w.next_id req src) w) in
      elim (Result-cases
        (c.start (workflow_id c) (lit "BatchWorkflow") (batch_input c.org w.next_id req src))) [
          | inr (e, h) ↦ inl (
            e,
            h,
            rw h,
            rw h (
                update_batches-Stands (λ b. b.status ≡ failed) w.next_id
                  (set_failed c.now (lit "temporal: " ++ bridge_text e)) changed.batches (λ b. refl)
                  (λ b. refl) there),
          )
          | inl (run_id, h) ↦ inr (
            run_id,
            h,
            rw (h, judge_start-ok c w.next_id run_id changed)
                (update_batches-Stands
                  (λ b. (b.status ≡ running) × (b.temporal_run_id ≡ some run_id)) w.next_id
                  (set_running c.now run_id) changed.batches (λ b. (refl, refl)) (λ b. refl) there),
          )
        ]

  -- A request to create a batch either is refused, and then nothing is stored, or it is licensed and
  -- names an archive, and a connector if any, of the organisation. Then the workflow is asked for with
  -- that archive. If the bridge reports an error, the batch is stored and stands as failed; if
  -- not, it is stored and stands as running with the id of the run, whatever others have made of it in
  -- the meantime, if they delete no batch.
  pub create_batch-Permitted :
      (c : Caller) (req : BatchCreate) (registry : Registry) (w : World)
      → Keeps c.others
      → ((why : ApiError) × (create_batch debug_text c req registry w ≡ (err why, w)))
        ⊎ ((src : RegisteredSource) × Permitted debug_text c req registry src
            × Started c req src w (create_batch debug_text c req registry w))
  unfolding create_batch
  create_batch-Permitted c req registry w keeps =
      elim (Result-cases (check_create debug_text c req registry)) [
        | inr (why, e) ↦ inl (why, rw (create_batch, e))
        | inl (src, e) ↦ inr (
          src,
          check_create-Permitted c req registry src e,
          rw (create_batch, e) (start_batch-Started c req src w keeps),
        )
      ]
