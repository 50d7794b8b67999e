-- ===== src/Sampling.antt =====
-- Sampling, main/src/sampling/sampling.c: the buffer that a sensor script fills and the copy of it
-- that the mesh serves.
pub mod Buffer
