-- ===== src/Functime/LastPage.antt =====
-- The page numbers of the profiler against those of the kernel module it talks to.
