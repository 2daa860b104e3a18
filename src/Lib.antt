-- ===== src/Lib.antt =====
-- libgamemaps reads and writes the level files of DOS games. Each format is a class derived from
-- MapType; the manager (src/main.cpp) holds one object of each and finds it by index or by code.
-- `isInstance` looks at a file and says whether it is a level of the format, `open` turns one into
-- a map of layers, items and paths, and `write` turns a map back into files.
--
-- The parts and where they stand:
--   Prelude, Prelude/*       names passed on from the libraries, Boolean tests, list functions on
--                            the native numbers
--   Result                   how a call ends: a value, a thrown stream::error with its message, a
--                            failed assertion, or undefined behaviour (an access outside an array)
--   Stream, Stream/*         the streams of libgamecommon, an interface of operations and laws;
--                            Stream/Memory is a stream of bytes in memory that fulfils it
--   Graphics                 the tilesets of libgamegraphics, a parameter, and the lookups of
--                            images that the layers share
--   Map2D, Map2D/*           include/camoto/gamemaps/map2d.hpp, src/map2d-generic.cpp,
--                            src/map2d_layer.cpp; Map2D/Dims is getLayerDims of src/util.cpp
--   Grid, Grid/*             the loops of the grid formats: cells to items (`open`) and items to
--                            cells (`write`), what each shows, and where a store leaves the array;
--                            Grid/Words has the loops over 16-bit words, Grid/Rows those
--                            that read row by row, Grid/Asserting the loop
--                            of `write` with an assertion for a guard
--   Format                   the description of a format (getMapCode() and its like) and the scans
--                            that the formats share
--   Format/Rockford          src/fmt-map-rockford.cpp
--   Format/DDave             src/fmt-map-ddave.cpp; DDave/Path is the encoding of paths
--   Format/DarkAges          src/fmt-map-darkages.cpp; DarkAges/Tiles is its image lookup
--   Format/CComic            src/fmt-map-ccomic.cpp
--   Format/Hocus             src/fmt-map-hocus.cpp
--   Format/Duke1             src/fmt-map-duke1.cpp; Grid/Words has its loops over 16-bit words
--   Format/Vinyl             src/fmt-map-vinyl.cpp
--   Format/Cosmo             src/fmt-map-cosmo.cpp; Cosmo/Attributes packs the attributes into the
--                            flags of a file, Cosmo/Actors reads and writes the actors
--   Format/Harry             src/fmt-map-harry.cpp; Harry/Actors has its actors and the player
--   Format/Got               src/fmt-map-got.cpp; Got/Screens reads its screens, Got/Arrays has the
--                            arrays that `write` fills, Got/Layout where a tile lies in them
--   Format/Zone66            src/fmt-map-zone66.cpp; Zone66/Mapping builds its table of tiles
--   Format/Wacky             src/fmt-map-wacky.cpp; Wacky/Path is the file of the path
--   Format/Nukem2            src/fmt-map-nukem2.cpp; Nukem2/Rle and Nukem2/Extra are the encoder
--                            and the decoder of the extra bits, Nukem2/Cells the words of the cells
--   Format/Sweeney           src/fmt-map-xargon.cpp, with Format/Jill and Format/Xargon;
--                            Sweeney/Objects are the objects and their texts,
--                            Sweeney/Columns the tiles, which lie column by column
--   Format/WordRescue/Rle    the run-length encoding of src/fmt-map-wordresc.cpp
--   Format/*, the others     the description of each remaining format
--   Manager                  src/main.cpp
--
-- In each modelled format `is_instance`, `create`, `open_map`, `write_map`, `image_from_code` and
-- `background_layer` are the class's isInstance(), create(), open(), write(), imageFromCode() and
-- layer constructor. A stream is passed along explicitly: each operation returns the stream after
-- it. A write to a C array is `store`, undefined outside the array; the loop `paint` first reduces
-- the code to the 8 or 16 bits of a cell. An unsigned int keeps its wrap-around `% 2 ^ 32` where the
-- code computes with one, but the index of a cell in an array is taken as it is, which agrees below
-- 2 ^ 32; a new array that `write` does not fill has unknown contents, the parameter `heap` of
-- Format/Vinyl, and so are the entries of an array that are not set, the parameter `stack` of
-- Format/Zone66; a point of a path is a pair of 32-bit patterns, and the floating point of the paths
-- of Wacky Wheels is two parameters, `heading` and `root` of Format/Wacky. An Option stands for a
-- shared pointer that may be null; the map that a `write` is given is none where the cast to Map2D
-- fails.
--
-- A loop that only the file ends has fuel. read_tiles of Format/WordRescue/Rle has a round for each
-- run, since a run may be empty; it answers none if the fuel runs out, and a run that rleWrite()
-- writes is never empty, so the number of cells is enough for what it writes. read_extra of
-- Format/Nukem2/Extra has as much as the file has bytes, since each round reads a byte.
-- put_diff and put_same of Format/Nukem2/Rle have the length of what they write, which each round
-- shortens. read_strings of Format/Sweeney/Objects has the number of bytes
-- left in its file, and read_dma of Format/Sweeney one more than the size of its file, since a round
-- that goes on has read some. Every other
-- loop runs over a list or counts down from a number that is known before it.
--
-- The streams are a parameter, since their code is not in this repository. Their laws say what the
-- formats rely on: a read inside the file gives the next bytes, a read past its end throws, a write
-- at the end appends, and none of these fails otherwise. Tests and instances use Stream/Memory.
--
-- Not modelled: the layers of the formats whose description alone is here (of Word Rescue, all but
-- the run-length encoding and the reading of the background), map attributes of type Text and images,
-- getRequiredSupps(), getBackgroundImage(), MapType_Base::write() and its copies between streams,
-- and the program in examples/.
pub mod Prelude
pub mod Result
pub mod Stream
pub mod Map2D
pub mod Grid
pub mod Graphics
pub mod Format
pub mod Manager
