-- ===== src/Server/Subsampling/Stack.antt =====
-- The array of keys on the stack of SubsamplingHandler of src/handlers/SubsamplingHandler.cpp.
