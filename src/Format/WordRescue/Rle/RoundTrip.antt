-- ===== src/Format/WordRescue/Rle/RoundTrip.antt =====
-- What rleWrite() writes is read back as the layer.
