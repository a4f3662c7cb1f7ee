-- ===== src/Schemas.antt =====
-- packages/schemas/src: the canonical JSON that every hash is taken over.
pub mod StableJson
